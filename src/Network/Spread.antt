-- ===== src/Network/Spread.antt =====
-- src/libagml_comm/common/Commands.cpp: the commands that spread a model over the network of hosts.
use lib_agml.Common.{
  ℕ, ◌+◌, ◌≡◌, ◌≢◌, refl, Bool, true, false, ◌&&◌, List, [], ◌∷◌, ◌++◌, ◌==◌, if◌then◌else◌, arith,
}
use lib_agml.Simulation.Lifecycle.{count, one_if}
use lib_agml.Network.{
  Peers, Command, add_to_network, set_topology, model, root_welcome, start_infos, do_start_infos,
  is_root, is_isolated, send_to, send_each, com_add_to_network,
}

-- `agml_command_set_topology`, up to the reading of the model.
unfoldable pub on_set_topology : List ℕ → Peers → Peers
on_set_topology text p = send_each p.slaves set_topology text p

-- How it goes with a data host of another machine: no connection could be opened to it, or one was, and the
-- invitation and the welcome could be sent or their sending threw.
pub data Opening : Type 0 where
  unreachable : Opening
  opened : ℕ → Bool → Bool → Opening

-- The loop of `agml_command_model` over the data hosts of other machines.
unfoldable pub invite : List ℕ → List Opening → Peers → Peers
invite port [] p = p
invite port (unreachable ∷ os) p = invite port os p
invite port (opened h invited welcomed ∷ os) p =
    let r = com_add_to_network h invited p in
    invite port os (if r.1 && welcomed then send_to h root_welcome port r.0 else r.0)

-- The end of `agml_command_model`: the root spreads the model, any other host hands it to its masters.
unfoldable pub pass_on : List ℕ → Peers → Peers
pass_on text p = if is_root p then on_set_topology text p else send_each p.masters model text p

-- `agml_command_model`
unfoldable pub on_model : List ℕ → List Opening → List ℕ → Peers → Peers
on_model port found text p = pass_on text (if is_isolated p then invite port found p else p)

-- `agml_command_start_infos`
unfoldable pub on_start_infos : List ℕ → Peers → Peers
on_start_infos text p =
    if is_root p
    then send_each p.slaves do_start_infos text p
    else send_each p.masters start_infos text p

-- How many commands were sent to a host.
abbrev pub sent_to : ℕ → List (ℕ × (Command × List ℕ)) → ℕ
sent_to k [] = 0
sent_to k (e ∷ es) = one_if (e.0 == k) + sent_to k es

abbrev pub opened_hosts : List Opening → List ℕ
opened_hosts [] = []
opened_hosts (unreachable ∷ os) = opened_hosts os
opened_hosts (opened h invited welcomed ∷ os) = h ∷ opened_hosts os

-- Every command to a host that was reached could be sent.
abbrev pub AllThrough : List Opening → Type 0
AllThrough [] = Unit {0}
AllThrough (unreachable ∷ os) = AllThrough os
AllThrough (opened h invited welcomed ∷ os) = ((invited ≡ true) × (welcomed ≡ true)) × AllThrough os

-- The commands sent after some others, the latest first: one to each host, and an invitation and a welcome to each.
abbrev pub told :
    Command → List ℕ → List ℕ → List (ℕ × (Command × List ℕ)) → List (ℕ × (Command × List ℕ))
told c text [] before = before
told c text (h ∷ hs) before = told c text hs ((h, (c, text)) ∷ before)

abbrev pub welcomed_each :
    List ℕ → List ℕ → List (ℕ × (Command × List ℕ)) → List (ℕ × (Command × List ℕ))
welcomed_each port [] before = before
welcomed_each port (h ∷ hs) before =
    welcomed_each port hs ((h, (root_welcome, port)) ∷ ((h, (add_to_network, [])) ∷ before))

send_each-sent :
    (k : ℕ) (hs : List ℕ) (c : Command) (text : List ℕ) (p : Peers)
    → sent_to k (send_each hs c text p).sent ≡ sent_to k p.sent + count k hs
unfolding send_each
send_each-sent k [] c text p = omega arith
send_each-sent k (h ∷ hs) c text p = omega (arith, send_each-sent k hs c text (send_to h c text p))

-- What the invitations change: the slaves, and the commands that are sent.
record IsInvited (port : List ℕ) (os : List Opening) (p q : Peers) : Type 0 where
  pub slaves_more : q.slaves ≡ p.slaves ++ opened_hosts os
  pub masters_kept : q.masters ≡ p.masters
  pub sent_more : q.sent ≡ welcomed_each port (opened_hosts os) p.sent

no_root : (ms : List ℕ) → ms ≢ [] → (elim ms as (λ _. Bool) [ [] ↦ true | h ∷ hs ↦ false ]) ≡ false
no_root [] n = absurd (n refl)
no_root (h ∷ hs) n = refl

not_alone :
    (ss : List ℕ) (b : Bool)
    → b ≡ false
    → (elim ss as (λ _. Bool) [ [] ↦ b | h ∷ hs ↦ false ]) ≡ false
not_alone [] b e = e
not_alone (h ∷ hs) b e = refl

-- A model given to a process that has masters goes to each of them, and to no other host.
pub on_model_forwards :
    (port text : List ℕ) (found : List Opening) (k : ℕ) (p : Peers)
    → p.masters ≢ []
    → sent_to k (on_model port found text p).sent ≡ sent_to k p.sent + count k p.masters
unfolding on_model pass_on
on_model_forwards port text found k p m =
    rw (not_alone p.slaves (is_root p) (no_root p.masters m), no_root p.masters m)
      (send_each-sent k p.masters model text p)
