-- ===== src/Supervisor/System/Single.antt =====
-- internal/supervisor/supervisor.go: how many workers live at a time.
use apipact_agent.Prelude.{
  ℕ, ◌+◌, ◌≤◌, ◌≡◌, refl, sym, ◌∙◌, ◌⊎◌, inl, inr, true, false, Option, none, some, List, [], ◌∷◌,
  arith, ◌==◌, if◌then◌else◌, Bool-cases, length, All,
}
use apipact_agent.Supervisor.System.{
  kill, is_dead, Process, LoopPhase, System, sleeping, waiting, starting, resting,
}

abbrev pub live : List Process → ℕ
live [] = 0
live (p ∷ ps) = (if p.alive then 1 else 0) + live ps

-- Pids count up from 0, the youngest process first.
abbrev pub Numbered : List Process → Type 0
Numbered [] = Unit
Numbered (p ∷ ps) = (p.pid ≡ length ps) × Numbered ps

-- The only process that may live is this one, if there is one.
abbrev pub OnlyChild : Option ℕ → List Process → Type 0
OnlyChild child ps = All (λ p. (p.alive ≡ false) ⊎ (child ≡ some p.pid)) ps

abbrev pub AllDead : List Process → Type 0
AllDead ps = All (λ p. p.alive ≡ false) ps

-- What the loop's phase says of the child.
abbrev pub LoopKnows : LoopPhase → System → Type 0
LoopKnows (waiting pid b) s = (s.child ≡ some pid) ⊎ (s.cancelled ≡ true)
LoopKnows (sleeping b) s = AllDead s.processes ⊎ (s.cancelled ≡ true)
LoopKnows _ s = Unit

-- The process that may live: the child, or the one that the loop has started and not yet assigned.
abbrev pub the_one : LoopPhase → Option ℕ → Option ℕ
the_one (starting pid b) child = some pid
the_one _ child = child

pub record IsSingle (s : System) : Type 0 where
  pub numbered : Numbered s.processes
  pub only_child : OnlyChild (the_one s.loop s.child) s.processes
  pub loop_knows : LoopKnows s.loop s
  pub no_update : s.update ≡ resting

pub length-kill : (pid : ℕ) (ps : List Process) → length (kill pid ps) ≡ length ps
unfolding kill
length-kill pid [] = refl
length-kill pid (p ∷ ps) = ground (arith, length-kill pid ps)

pub kill-Numbered : (pid : ℕ) (ps : List Process) → Numbered ps → Numbered (kill pid ps)
unfolding kill
kill-Numbered pid [] h = tt
kill-Numbered pid (p ∷ ps) (h, hs) = elim (Bool-cases (p.pid == pid)) [
  | inl b ↦ rw b (h ∙ sym (length-kill pid ps), kill-Numbered pid ps hs)
  | inr b ↦ rw b (h ∙ sym (length-kill pid ps), kill-Numbered pid ps hs)
]

pub kill-OnlyChild :
    (child : Option ℕ) (pid : ℕ) (ps : List Process)
    → OnlyChild child ps
    → OnlyChild child (kill pid ps)
unfolding kill
kill-OnlyChild child pid [] h = tt
kill-OnlyChild child pid (p ∷ ps) (h, hs) = elim (Bool-cases (p.pid == pid)) [
  | inl b ↦ rw b (inl refl, kill-OnlyChild child pid ps hs)
  | inr b ↦ rw b (h, kill-OnlyChild child pid ps hs)
]

pub kill-AllDead : (pid : ℕ) (ps : List Process) → AllDead ps → AllDead (kill pid ps)
unfolding kill
kill-AllDead pid [] h = tt
kill-AllDead pid (p ∷ ps) (h, hs) = elim (Bool-cases (p.pid == pid)) [
  | inl b ↦ rw b (refl, kill-AllDead pid ps hs)
  | inr b ↦ rw b (h, kill-AllDead pid ps hs)
]

-- With the child killed, nobody lives.
pub kill_child-AllDead :
    (pid : ℕ) (ps : List Process) → OnlyChild (some pid) ps → AllDead (kill pid ps)
unfolding kill
kill_child-AllDead pid [] h = tt
kill_child-AllDead pid (p ∷ ps) (h, hs) = elim (Bool-cases (p.pid == pid)) [
  | inl b ↦ rw b (refl, kill_child-AllDead pid ps hs)
  | inr b ↦
      rw b (elim h [ inl d ↦ d | inr e ↦ absurd (ground arith) ], kill_child-AllDead pid ps hs)
]

pub dead_child-AllDead :
    (pid : ℕ) (ps : List Process) → OnlyChild (some pid) ps → is_dead pid ps ≡ true → AllDead ps
unfolding is_dead
dead_child-AllDead pid [] h e = tt
dead_child-AllDead pid (p ∷ ps) (h, hs) e =
    (elim h [ inl d ↦ d | inr q ↦ ground arith ], dead_child-AllDead pid ps hs (ground arith))

pub AllDead-OnlyChild : (child : Option ℕ) (ps : List Process) → AllDead ps → OnlyChild child ps
AllDead-OnlyChild child [] h = tt
AllDead-OnlyChild child (p ∷ ps) (h, hs) = (inl h, AllDead-OnlyChild child ps hs)

none-AllDead : (ps : List Process) → OnlyChild none ps → AllDead ps
none-AllDead [] h = tt
none-AllDead (p ∷ ps) (h, hs) =
    (elim h [ inl d ↦ d | inr e ↦ absurd (ground arith) ], none-AllDead ps hs)

live-AllDead : (ps : List Process) → AllDead ps → live ps ≡ 0
live-AllDead [] h = refl
live-AllDead (p ∷ ps) (h, hs) = ground (arith, live-AllDead ps hs)

-- A child that is older than all of a list of processes is none of them.
younger-AllDead :
    (pid : ℕ) (ps : List Process)
    → Numbered ps
    → length ps ≤ pid
    → OnlyChild (some pid) ps
    → AllDead ps
younger-AllDead pid [] n l h = tt
younger-AllDead pid (p ∷ ps) (n, ns) l (h, hs) = (
  elim h [ inl d ↦ d | inr e ↦ absurd (ground arith) ],
  younger-AllDead pid ps ns (omega (arith, l)) hs,
)

pub live_le_one :
    (child : Option ℕ) (ps : List Process) → Numbered ps → OnlyChild child ps → live ps ≤ 1
live_le_one child [] n h = omega arith
live_le_one child (p ∷ ps) (n, ns) (inl d, hs) = ground (arith, live_le_one child ps ns hs)
live_le_one child (p ∷ ps) (n, ns) (inr e, hs) =
    let dead = younger-AllDead p.pid ps ns (omega (arith, n)) (rw e at hs) in
    ground (arith, live-AllDead ps dead)
