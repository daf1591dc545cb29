-- ===== src/Tests/Keys.antt =====
-- cmd/agentctl/main.go, release-keygen with a fixed key pair.
use apipact_agent.Prelude.{String, ◌≡◌, refl, ap, false, none, [], ◌∷◌, arith, ok}
use apipact_agent.Prelude.Dict.{Dict}
use apipact_agent.Secure.{KeyPair, Envelope}
use apipact_agent.Agentctl.Keys.{cmd_release_keygen}
use apipact_agent.Agentctl.Keys.Usable.{release_lines, release_keygen-accepted, IsSound}
use apipact_agent.Update.Manifest.{
  fetch_manifest, download_and_verify, decode_release_key, response,
}
use apipact_agent.Tests.{texts_differ}
use apipact_agent.Tests.Enrolling.{envelope}
use apipact_agent.Tests.Release.{
  zeros, flags, write, scan-write, tool, released, lib, agrees, signs,
}

abbrev json : Dict String → String
json set = "{}"

-- Keys whose texts release-sign and the supervisor read.
abbrev texts : Envelope
texts = record envelope { encode_signing_public = write; encode_signing_private = λ b. "k" }

abbrev pair : KeyPair
pair = record { public = zeros 32; private = zeros 64 }

pair-IsSound : IsSound texts json tool lib pair
unfolding write
pair-IsSound = record {
  private_text = refl;
  public_text = ap (λ x. ok x.1) (scan-write (zeros 32));
  written = texts_differ (write (zeros 32)) "" refl;
  size = refl;
  signs = λ m. refl;
}

release_keygen-accepted_example :
    (decode_release_key lib (write (zeros 32)) ≡ ok (zeros 32))
    × (fetch_manifest lib (zeros 32) (response 200 "200 OK" (9 ∷ []) none) ≡ ok released)
    × (download_and_verify lib released (response 200 "200 OK" (1 ∷ 2 ∷ []) none)
        ≡ (1 ∷ 2 ∷ [], none))
release_keygen-accepted_example =
    release_keygen-accepted texts json tool lib pair flags (write (zeros 32)) (1 ∷ 2 ∷ []) (9 ∷ [])
      "200 OK" "200 OK" printed_lines pair-IsSound agrees (omega arith) signs
  where
    printed_lines :
        (cmd_release_keygen texts json false (pair, none)).lines
        ≡ release_lines texts json tool lib "k" (write (zeros 32))
    printed_lines = unfold cmd_release_keygen in refl
