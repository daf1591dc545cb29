-- ===== src/Config/Save.antt =====
-- internal/config/config.go: Save and Load on the files of a disk. encoding/json is the record Codec;
-- each call of the operating system may fail, for the reason it is given.
pub mod Atomic
use Prim.Native.String.{◌++◌ as ◌<>◌}
use apipact_agent.Prelude.{ℕ, ◌<◌, String, Option, none, some, [], Result, ok, err, take}
use apipact_agent.Prelude.Dict.{lookup, insert}
use apipact_agent.Executor.Request.{Bytes}
use apipact_agent.Update.Swap.{Files, Fault, rename, remove}
use apipact_agent.Config.{load_parsed, Config, Addresses}

pub record Codec : Type 0 where
  -- json.MarshalIndent and json.Unmarshal
  pub encode : Config → Result String Bytes
  pub decode : Bytes → Result String Config

-- The faults of Save's system calls. A write that fails has written that many bytes.
pub record SaveFaults : Type 0 where
  pub mkdir : Fault
  pub create : Fault
  pub chmod : Fault
  pub write : Fault
  pub written : ℕ
  pub sync : Fault
  pub close : Fault
  pub move : Fault
  pub cleanup : Fault

-- Save from the creation of its temporary file on, for the encoded configuration: the error, and the
-- files before the deferred removal.
unfoldable pub write_and_move : SaveFaults → Bytes → String → String → Files → Option String × Files
unfolding rename
write_and_move f raw tmp path fs = elim f.chmod [
  | some e ↦ (some e, insert tmp [] fs)
  | none ↦ elim f.write [
    | some e ↦ (some e, insert tmp (take f.written raw) fs)
    | none ↦ elim f.sync [
      | some e ↦ (some e, insert tmp raw fs)
      | none ↦ elim f.close [
        | some e ↦ (some e, insert tmp raw fs)
        | none ↦ rename f.move tmp path (insert tmp raw fs)
      ]
    ]
  ]
]

module _ (codec : Codec) where
  -- Save, with the name that CreateTemp picks.
  unfoldable pub save : SaveFaults → String → String → Config → Files → Option String × Files
  unfolding write_and_move remove
  save f tmp path c fs = elim f.mkdir [
    | some e ↦ (some e, fs)
    | none ↦ elim (codec.encode c) [
      | err e ↦ (some e, fs)
      | ok raw ↦ elim f.create [
        | some e ↦ (some e, fs)
        | none ↦
            let (failed, fs') = write_and_move f raw tmp path fs in
            (failed, remove f.cleanup tmp fs')
      ]
    ]
  ]

  -- Load
  unfoldable pub load : Addresses → String → Files → Result String Config
  unfolding load_parsed
  load lib path fs = elim (lookup path fs) [
    | none ↦ err "no such file"
    | some raw ↦ elim (codec.decode raw) [
      | err e ↦ err ("parse config: " <> e)
      | ok c ↦ load_parsed lib c
    ]
  ]
