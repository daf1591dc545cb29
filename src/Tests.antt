-- ===== src/Tests.antt =====
-- Runs of the model on concrete inputs, part by part.
mod Channels
mod Config
mod Dedupe
mod Egress
mod Executor
mod Guarded
mod Worker
mod Update
mod Reporter
mod Sealed
mod Pool
mod Supervisor
mod Enrolling
mod Release
mod Keys
mod Assembly
mod Trace
mod Lifetime
mod Obs
mod Command
mod Status
use apipact_agent.Prelude.{String, ◌≡◌, ◌≢◌, true, false, arith, ◌=ₛ◌, eq_iff}

pub texts_differ : (a b : String) → (a =ₛ b) ≡ false → a ≢ b
texts_differ a b h = λ e. let t : (a =ₛ b) ≡ true = (eq_iff a b).1 e in absurd (ground arith)
