-- ===== src/Supervisor/System/External.antt =====
-- internal/supervisor/supervisor.go: Run in the update mode "external", where nothing but the loop
-- restarts the worker.
use apipact_agent.Prelude.{
  ℕ, ◌≤◌, ◌≡◌, refl, sym, ◌∙◌, ◌≢◌, inl, inr, true, false, Option, none, some, List, arith,
}
use apipact_agent.Update.Swap.{Files}
use apipact_agent.Update.Manifest.{Release}
use apipact_agent.Executor.Request.{Bytes}
use apipact_agent.Supervisor.System.{
  kill, is_dead, start_child, set_child, stop_child, initial, cycle_ends, Process, LoopPhase,
  UpdatePhase, System, Settings, Step, Reach, reading, sleeping, waiting, starting, ended, resting,
  process_exits, loop_reads, loop_finds_none, loop_sees_exit, loop_leaves, loop_starts,
  loop_has_started, loop_start_fails, update_found, update_staged, update_not_staged,
  update_checked, update_not_checked, update_stops, update_promotes, update_not_promoted,
  update_starts, update_succeeds, update_unready, update_not_started, update_stops_again,
  update_rolls_back, update_restarts, update_has_restarted, update_not_restarted, shutdown,
  run_stops, here, next,
}
use apipact_agent.Supervisor.System.Single.{
  live, Numbered, OnlyChild, AllDead, LoopKnows, the_one, kill-Numbered, kill-OnlyChild,
  kill-AllDead, kill_child-AllDead, dead_child-AllDead, AllDead-OnlyChild, live_le_one, IsSingle,
}

cancelled-LoopKnows : (l : LoopPhase) (t : System) → t.cancelled ≡ true → LoopKnows l t
cancelled-LoopKnows (reading b) t c = tt
cancelled-LoopKnows (sleeping b) t c = inr c
cancelled-LoopKnows (waiting pid b) t c = inr c
cancelled-LoopKnows (starting pid b) t c = tt
cancelled-LoopKnows ended t c = tt

kill-LoopKnows :
    (l : LoopPhase) (s : System) (pid : ℕ)
    → LoopKnows l s
    → LoopKnows l (record s { processes = kill pid s.processes })
kill-LoopKnows (reading b) s pid h = tt
kill-LoopKnows (sleeping b) s pid h = elim h [
  | inl d ↦ inl (kill-AllDead pid s.processes d)
  | inr c ↦ inr c
]
kill-LoopKnows (waiting p b) s pid h = h
kill-LoopKnows (starting p b) s pid h = tt
kill-LoopKnows ended s pid h = tt

-- The worker that the loop has seen exit was the last one.
exited-AllDead :
    (s : System) (pid b : ℕ)
    → IsSingle s
    → s.loop ≡ waiting pid b
    → is_dead pid s.processes ≡ true
    → s.cancelled ≡ false
    → AllDead s.processes
exited-AllDead s pid b i a d c = elim (rw a at i.loop_knows) [
  | inl q ↦ dead_child-AllDead pid s.processes (rw (a, q) at i.only_child) d
  | inr e ↦ absurd (ground arith)
]

sleeping-AllDead :
    (s : System) (b : ℕ)
    → IsSingle s
    → s.loop ≡ sleeping b
    → s.cancelled ≡ false
    → AllDead s.processes
sleeping-AllDead s b i a c = elim (rw a at i.loop_knows) [
  | inl d ↦ d
  | inr e ↦ absurd (ground arith)
]

-- The processes once the child, if there is one, has been stopped.
abbrev after_stop : Option ℕ → List Process → List Process
after_stop child ps = elim child [ none ↦ ps | some pid ↦ kill pid ps ]

after_stop-Numbered :
    (child : Option ℕ) (ps : List Process) → Numbered ps → Numbered (after_stop child ps)
after_stop-Numbered none ps n = n
after_stop-Numbered (some pid) ps n = kill-Numbered pid ps n

after_stop-none :
    (child : Option ℕ) (ps : List Process)
    → OnlyChild child ps
    → OnlyChild none (after_stop child ps)
after_stop-none none ps h = h
after_stop-none (some pid) ps h = AllDead-OnlyChild none (kill pid ps) (kill_child-AllDead pid ps h)

after_stop-OnlyChild :
    (l : LoopPhase) (child : Option ℕ) (ps : List Process)
    → OnlyChild (the_one l child) ps
    → OnlyChild (the_one l none) (after_stop child ps)
after_stop-OnlyChild (starting pid b) none ps h = h
after_stop-OnlyChild (starting pid b) (some old) ps h = kill-OnlyChild (some pid) old ps h
after_stop-OnlyChild (reading b) child ps h = after_stop-none child ps h
after_stop-OnlyChild (sleeping b) child ps h = after_stop-none child ps h
after_stop-OnlyChild (waiting pid b) child ps h = after_stop-none child ps h
after_stop-OnlyChild ended child ps h = after_stop-none child ps h

stop_child-IsSingle : (s : System) → s.cancelled ≡ true → IsSingle s → IsSingle (stop_child s)
unfolding stop_child
stop_child-IsSingle s c i = record {
  numbered = after_stop-Numbered s.child s.processes i.numbered;
  only_child = after_stop-OnlyChild s.loop s.child s.processes i.only_child;
  loop_knows = cancelled-LoopKnows s.loop (stop_child s) c;
  no_update = i.no_update;
}

module _ (lib : Release) (set : Settings) (Passed : Bytes → Type 0)
    (external : set.mode ≡ "external") where
  at_rest :
      {s : System} {u : UpdatePhase} {A : Type 0} → IsSingle s → s.update ≡ u → u ≢ resting → A
  at_rest i a n = absurd (n (sym a ∙ i.no_update))

  Step-IsSingle : {s t : System} → Step lib set Passed s t → IsSingle s → IsSingle t
  unfolding start_child set_child cycle_ends
  Step-IsSingle {s} (process_exits pid) i = record {
    numbered = kill-Numbered pid s.processes i.numbered;
    only_child = kill-OnlyChild (the_one s.loop s.child) pid s.processes i.only_child;
    loop_knows = kill-LoopKnows s.loop s pid i.loop_knows;
    no_update = i.no_update;
  }
  Step-IsSingle (loop_reads a c) i = record {
    numbered = i.numbered;
    only_child = rw a at i.only_child;
    loop_knows = inl c;
    no_update = i.no_update;
  }
  Step-IsSingle (loop_finds_none a c) i = record {
    numbered = i.numbered;
    only_child = rw a at i.only_child;
    loop_knows = tt;
    no_update = i.no_update;
  }
  Step-IsSingle {s} (loop_sees_exit {b = b} {pid} a d c) i = record {
    numbered = i.numbered;
    only_child = rw a at i.only_child;
    loop_knows = inl (exited-AllDead s pid b i a d c);
    no_update = i.no_update;
  }
  Step-IsSingle (loop_leaves (inl a) c) i = record {
    numbered = i.numbered;
    only_child = rw a at i.only_child;
    loop_knows = tt;
    no_update = i.no_update;
  }
  Step-IsSingle (loop_leaves (inr a) c) i = record {
    numbered = i.numbered;
    only_child = rw a at i.only_child;
    loop_knows = tt;
    no_update = i.no_update;
  }
  Step-IsSingle {s} (loop_starts {b = b} a c found) i = record {
    numbered = (refl, i.numbered);
    only_child = (inr refl, AllDead-OnlyChild _ s.processes (sleeping-AllDead s b i a c));
    loop_knows = tt;
    no_update = i.no_update;
  }
  Step-IsSingle (loop_has_started ready a) i = record {
    numbered = i.numbered;
    only_child = rw a at i.only_child;
    loop_knows = tt;
    no_update = i.no_update;
  }
  Step-IsSingle (loop_start_fails a) i = record {
    numbered = i.numbered;
    only_child = rw a at i.only_child;
    loop_knows = tt;
    no_update = i.no_update;
  }
  Step-IsSingle {s} shutdown i = record {
    numbered = i.numbered;
    only_child = i.only_child;
    loop_knows = cancelled-LoopKnows s.loop _ refl;
    no_update = i.no_update;
  }
  Step-IsSingle {s} (run_stops c) i = stop_child-IsSingle s c i
  Step-IsSingle (update_found key got v a b c d e f) i = absurd (b external)
  Step-IsSingle (update_staged f got a n n' e) i = at_rest i a (λ e. cc)
  Step-IsSingle (update_not_staged f got a n n' e) i = at_rest i a (λ e. cc)
  Step-IsSingle (update_checked a found passed) i = at_rest i a (λ e. cc)
  Step-IsSingle (update_not_checked f a) i = at_rest i a (λ e. cc)
  Step-IsSingle (update_stops a) i = at_rest i a (λ e. cc)
  Step-IsSingle (update_promotes f a e) i = at_rest i a (λ e. cc)
  Step-IsSingle (update_not_promoted f a e) i = at_rest i a (λ e. cc)
  Step-IsSingle (update_starts a c found) i = at_rest i a (λ e. cc)
  Step-IsSingle (update_succeeds f a) i = at_rest i a (λ e. cc)
  Step-IsSingle (update_unready a) i = at_rest i a (λ e. cc)
  Step-IsSingle (update_not_started a) i = at_rest i a (λ e. cc)
  Step-IsSingle (update_stops_again a) i = at_rest i a (λ e. cc)
  Step-IsSingle (update_rolls_back f a) i = at_rest i a (λ e. cc)
  Step-IsSingle (update_restarts (inl a) c found) i = at_rest i a (λ e. cc)
  Step-IsSingle (update_restarts (inr a) c found) i = at_rest i a (λ e. cc)
  Step-IsSingle (update_has_restarted f a) i = at_rest i a (λ e. cc)
  Step-IsSingle (update_not_restarted f (inl a)) i = at_rest i a (λ e. cc)
  Step-IsSingle (update_not_restarted f (inr a)) i = at_rest i a (λ e. cc)

  Reach-IsSingle : {s t : System} → Reach lib set Passed s t → IsSingle s → IsSingle t
  Reach-IsSingle here i = i
  Reach-IsSingle (next r st) i = Step-IsSingle st (Reach-IsSingle r i)

  initial-IsSingle : (files : Files) (image : Bytes) → IsSingle (initial files image)
  unfolding initial
  initial-IsSingle files image = record {
    numbered = (refl, tt);
    only_child = (inr refl, tt);
    loop_knows = tt;
    no_update = refl;
  }

  -- In the update mode "external", at most one worker lives at any time: whichever workers end,
  -- whichever starts fail or never become ready, and whenever the supervisor is cancelled.
  pub external_single :
      (files : Files) (image : Bytes) {t : System}
      → Reach lib set Passed (initial files image) t
      → live t.processes ≤ 1
  external_single files image {t} r =
      let i = Reach-IsSingle r (initial-IsSingle files image) in
      live_le_one (the_one t.loop t.child) t.processes i.numbered i.only_child
