-- ===== src/Infos/Exchange.antt =====
-- src/libagml_comm/topology/Info.cpp: `agml_infos_update_thread`, and the handlers of
-- src/libagml_comm/common/Commands.cpp that its messages reach.
use lib_agml.Common.{
  ◌∷◌, false, true, ℕ, ◌^◌, ◌<◌, ◌≡◌, Option, none, some, List, [], if◌then◌else◌, length, Result,
  ok, bad_access, ◌>>=◌, or_fail,
}
use lib_agml.Wire.Message.{Message, new_message, add, set_command_id}
use lib_agml.Topology.{Topology}
use lib_agml.Network.{Peers, is_root, command_id}
use lib_agml.Infos.{Layout, GroupState}
use lib_agml.Infos.Report.{GroupReport, IsReport, group_reports, report_bytes}
use lib_agml.Infos.Dump.{any_info, dump_all_infos, dump_local_infos}
use lib_agml.Infos.Dump.Bytes.{dump_twice-stored}
use lib_agml.Infos.Update.{update_infos}

-- `update_infos`
abbrev pub update_name : List ℕ
update_name = 117 ∷ 112 ∷ 100 ∷ 97 ∷ 116 ∷ 101 ∷ 95 ∷ 105 ∷ 110 ∷ 102 ∷ 111 ∷ 115 ∷ []

-- The message of `agml_infos_update_thread` with the bytes that `dump_local_infos` adds.
unfoldable pub update_message : List ℕ → Message
update_message bytes =
    let m : Message = elim (command_id update_name) [
      | none ↦ new_message
      | some id ↦ set_command_id new_message id
    ] in
    add (record m { data_allocated = true }) (some bytes) (length bytes) false

-- One turn of the loop of `agml_infos_update_thread`: the host that is sent to, and what it is sent.
pub update_turn : Layout → Option ℕ → Option (List GroupState) → Result (Option (ℕ × Message))
update_turn layout none cur = ok none
update_turn layout (some root_host) cur = do
  gs ← or_fail cur bad_access
  d ← dump_local_infos layout gs
  ok (some (root_host, update_message d.stored))

-- `agml_command_update_infos`
pub on_update_infos : Layout → Option (List GroupState) → List ℕ → Result (Option (List GroupState))
on_update_infos layout none params = ok none
on_update_infos layout (some gs) params = update_infos layout gs params >>= λ gs'. ok (some gs')

-- How `agml_command_infos` answers: with the bytes of a reply, with what the root host answers to
-- the same command, or not at all.
pub data Answer : Type 0 where
  silence : Answer
  reply : List ℕ → Answer
  answer_of : ℕ → List ℕ → Answer

pub on_infos : Layout → Peers → Option (List GroupState) → List ℕ → Result Answer
on_infos layout p cur params =
    if is_root p
    then elim cur [
      | none ↦ ok (reply [])
      | some gs ↦ dump_all_infos layout gs >>= λ d. ok (reply d.stored)
    ]
    else ok (elim p.root_host [ none ↦ silence | some root ↦ answer_of root params ])

-- The buffer that `dump_all_infos` allocates from the size that its first pass counts is the one that its
-- second pass fills, without a byte more or less, with the report on all hosts; this holds for every
-- topology that has a report whose information has the sizes of its types, whose names are C strings and
-- whose counts fit in 32 bits, and has fewer than 2^64 bytes.
pub dump_all_infos-fills :
    (layout : Layout) (gs : List GroupState) (rs : List GroupReport)
    → group_reports any_info (λ g. g.hosts) gs ≡ ok rs
    → IsReport layout rs
    → length (report_bytes layout rs) < 2 ^ 64
    → dump_all_infos layout gs
      ≡ ok (record { allocated = length (report_bytes layout rs); stored = report_bytes layout rs })
unfolding dump_all_infos
dump_all_infos-fills layout gs rs e well small =
    dump_twice-stored layout any_info (λ g. g.hosts) gs rs e well small
