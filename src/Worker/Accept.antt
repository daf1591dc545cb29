-- ===== src/Worker/Accept.antt =====
-- internal/worker/worker.go, onJob: which messages start a job.
use apipact_agent.Prelude.{
  String, ◌≡◌, refl, ◌↔◌, ◌⊎◌, inl, inr, false, arith, eq_iff, Bool-cases, Result, ok, err,
  Result-cases,
}
use apipact_agent.Prelude.Int.{pos}
use apipact_agent.Protocol.{Job}
use apipact_agent.Dedupe.{seen_or_record, Codec, Recorded}
use apipact_agent.Worker.{
  after_dedupe, is_past, admit, after_open, go_on, on_job, Envelopes, Identity, Instant, Worker,
  started,
}

module _ (env : Envelopes) (me : Identity) (codec : Codec) where
  abbrev W : Type 0
  W = Worker env me codec

  -- Everything that onJob asks of a message before it starts the job: the worker is not draining,
  -- the message is an envelope that opens to the job, the job is for this agent or for none, its
  -- deadline has not passed, and the dedupe store records its id as new.
  pub record Admitted (t : Instant) (m : env.Raw) (w : W) (job : Job) : Type 0 where
    pub envelope : env.Envelope
    pub awake : w.draining ≡ false
    pub parsed : env.parse m ≡ ok envelope
    pub opened : (env.open_job w.opener envelope).0 ≡ ok job
    pub addressed : (job.agent_id ≡ "") ⊎ (job.agent_id ≡ me.agent_id)
    pub on_time : is_past env me codec t.now job.deadline ≡ false
    pub fresh :
        (seen_or_record codec t.io
          (pos t.now_sec)
          (pos t.prune_sec)
          job.job_id
          w.dedupe
          w.disk).answer
        ≡ ok false

  after_dedupe-started :
      (job job' : Job) (w : W) (r : Recorded)
      → (after_dedupe env me codec job' w r).0 ≡ started job
      → (r.answer ≡ ok false) × (job' ≡ job)
  unfolding after_dedupe
  after_dedupe-started job job' w r h = ground arith

  admit-started :
      (t : Instant) (job job' : Job) (w : W)
      → (admit env me codec t job' w).0 ≡ started job
      → (job' ≡ job)
        × ((job'.agent_id ≡ "") ⊎ (job'.agent_id ≡ me.agent_id))
        × (is_past env me codec t.now job'.deadline ≡ false)
        × ((seen_or_record codec t.io
              (pos t.now_sec)
              (pos t.prune_sec)
              job'.job_id
              w.dedupe
              w.disk).answer
            ≡ ok false)
  unfolding admit
  admit-started t job job' w h = ground (
    arith,
    after_dedupe-started job job' w
        (seen_or_record codec t.io (pos t.now_sec) (pos t.prune_sec) job'.job_id w.dedupe w.disk),
    eq_iff job'.agent_id "",
    eq_iff job'.agent_id me.agent_id,
  )

  admit_started :
      (t : Instant) (job : Job) (w : W)
      → (job.agent_id ≡ "") ⊎ (job.agent_id ≡ me.agent_id)
      → is_past env me codec t.now job.deadline ≡ false
      → (seen_or_record codec t.io
          (pos t.now_sec)
          (pos t.prune_sec)
          job.job_id
          w.dedupe
          w.disk).answer
        ≡ ok false
      → (admit env me codec t job w).0 ≡ started job
  unfolding admit after_dedupe
  admit_started t job w a d s =
      ground (arith, eq_iff job.agent_id "", eq_iff job.agent_id me.agent_id)

  after_open-started :
      (t : Instant) (job : Job) (w : W) (r : Result String Job × env.Opener)
      → (after_open env me codec t w r).0 ≡ started job
      → (r.0 ≡ ok job)
        × ((job.agent_id ≡ "") ⊎ (job.agent_id ≡ me.agent_id))
        × (is_past env me codec t.now job.deadline ≡ false)
        × ((seen_or_record codec t.io
              (pos t.now_sec)
              (pos t.prune_sec)
              job.job_id
              w.dedupe
              w.disk).answer
            ≡ ok false)
  unfolding after_open
  after_open-started t job w (err e, opener) h = absurd (ground arith)
  after_open-started t job w (ok job', opener) h =
      let (same, a, d, s) = admit-started t job job' _ h in rw (← same) (refl, a, d, s)

  -- What a handler asks that has passed its test of the draining flag.
  go_on-started :
      (t : Instant) (m : env.Raw) (w : W) (job : Job)
      → (go_on env me codec t m w).0 ≡ started job
      → (e : env.Envelope) × (env.parse m ≡ ok e)
        × ((env.open_job w.opener e).0 ≡ ok job)
        × ((job.agent_id ≡ "") ⊎ (job.agent_id ≡ me.agent_id))
        × (is_past env me codec t.now job.deadline ≡ false)
        × ((seen_or_record codec t.io
              (pos t.now_sec)
              (pos t.prune_sec)
              job.job_id
              w.dedupe
              w.disk).answer
            ≡ ok false)
  unfolding go_on
  go_on-started t m w job h = elim (Result-cases (env.parse m)) [
    | inr (x, q) ↦ absurd (ground (arith, q))
    | inl (e, q) ↦
        let (o, a, d, s) =
          after_open-started t job w (env.open_job w.opener e) (rw (q, go_on) at h) in
        (e, q, o, a, d, s)
  ]

  pub go_on-fresh :
      (t : Instant) (m : env.Raw) (w : W) (job : Job)
      → (go_on env me codec t m w).0 ≡ started job
      → (seen_or_record codec t.io
          (pos t.now_sec)
          (pos t.prune_sec)
          job.job_id
          w.dedupe
          w.disk).answer
        ≡ ok false
  go_on-fresh t m w job h = let (e, q, o, a, d, s) = go_on-started t m w job h in s

  on_job-awake :
      (t : Instant) (m : env.Raw) (w : W)
      → w.draining ≡ false
      → on_job env me codec t m w ≡ go_on env me codec t m w
  unfolding on_job
  on_job-awake t m w b = simp b

  pub started-Admitted :
      (t : Instant) (m : env.Raw) (w : W) (job : Job)
      → (on_job env me codec t m w).0 ≡ started job
      → Admitted t m w job
  unfolding on_job
  started-Admitted t m w job h = elim (Bool-cases w.draining) [
    | inl b ↦ absurd (ground arith)
    | inr b ↦
        let (e, q, o, a, d, s) = go_on-started t m w job (rw (on_job-awake t m w b) at h) in
        record {
          envelope = e;
          awake = b;
          parsed = q;
          opened = o;
          addressed = a;
          on_time = d;
          fresh = s;
        }
  ]

  after_open_started :
      (t : Instant) (job : Job) (w : W) (r : Result String Job × env.Opener)
      → r.0 ≡ ok job
      → (job.agent_id ≡ "") ⊎ (job.agent_id ≡ me.agent_id)
      → is_past env me codec t.now job.deadline ≡ false
      → (seen_or_record codec t.io
          (pos t.now_sec)
          (pos t.prune_sec)
          job.job_id
          w.dedupe
          w.disk).answer
        ≡ ok false
      → (after_open env me codec t w r).0 ≡ started job
  unfolding after_open
  after_open_started t job w (err e, opener) h a d s = absurd (ground arith)
  after_open_started t job w (ok job', opener) h a d s =
      let same : job' ≡ job = ground arith in
      rw same (admit_started t job (record w { opener = opener }) a d s)

  Admitted-started :
      (t : Instant) (m : env.Raw) (w : W) (job : Job)
      → Admitted t m w job
      → (on_job env me codec t m w).0 ≡ started job
  unfolding on_job go_on
  Admitted-started t m w job g =
      rw (on_job-awake t m w g.awake, go_on, g.parsed)
        (after_open_started t job w (env.open_job w.opener g.envelope) g.opened g.addressed
          g.on_time g.fresh)

  -- A message starts a job exactly when all of onJob's guards let it: no other message does, and
  -- none that passes them is dropped.
  pub on_job-started_iff :
      (t : Instant) (m : env.Raw) (w : W) (job : Job)
      → ((on_job env me codec t m w).0 ≡ started job) ↔ Admitted t m w job
  on_job-started_iff t m w job = (started-Admitted t m w job, Admitted-started t m w job)
