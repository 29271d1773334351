-- ===== src/Network/Roles.antt =====
-- src/libagml_comm/common/com.cpp and Commands.cpp: the lists that a host stands in while it is connected.
use lib_agml.Common.{
  ℕ, suc, ◌+◌, ◌≤◌, ◌≡◌, ◌≢◌, refl, ap, ◌∙◌, inl, inr, Option, none, some, List, [], ◌∷◌, ◌++◌,
  ◌==◌, if◌then◌else◌, arith, Bool-cases, ==_refl,
}
use lib_agml.Simulation.Lifecycle.{count, count-append, count-remove, one_if}
use lib_agml.Network.{Peers, is_root, Command, notify_subscription, send_each, on_subscribe, leaves}

-- How often host `h` stands in the lists of masters and slaves.
abbrev pub roles : ℕ → Peers → ℕ
roles h p = count h p.masters + count h p.slaves

-- Where a process may still reach a host from.
pub record IsGone (h : ℕ) (p : Peers) : Type 0 where
  pub no_host : count h p.hosts ≡ 0
  pub no_master : count h p.masters ≡ 0
  pub no_slave : count h p.slaves ≡ 0
  pub no_root : p.root_host ≢ some h

-- When a host's connection ends that stands at most once in each list, no list holds the host that is
-- deleted, the root is another one, and every other host stands in the lists as often as before.
pub leaves-IsGone :
    (h k : ℕ) (p : Peers)
    → count h p.hosts ≤ 1
    → count h p.masters ≤ 1
    → count h p.slaves ≤ 1
    → k ≢ h
    → IsGone h (leaves h p)
      × (count k (leaves h p).hosts ≡ count k p.hosts)
      × (roles k (leaves h p) ≡ roles k p)
unfolding leaves
leaves-IsGone h k p a b c d = (
  record {
    no_host = rw (count-remove h h p.hosts, ==_refl h) (ground arith);
    no_master = rw (count-remove h h p.masters, ==_refl h) (ground arith);
    no_slave = rw (count-remove h h p.slaves, ==_refl h) (ground arith);
    no_root = root_other p.root_host;
  },
  rw (count-remove k h p.hosts) (ground (arith, d)),
  rw (count-remove k h p.masters, count-remove k h p.slaves) (ground (arith, d)),
)
  where
    root_other :
        (o : Option ℕ)
        → (elim o as (λ _. Option ℕ) [ none ↦ none | some r ↦ if h == r then none else some r ])
          ≢ some h
    root_other none e = ground (arith, e)
    root_other (some r) e = ground (arith, e)

pub send_each-slaves :
    (hs : List ℕ) (c : Command) (text : List ℕ) (p : Peers)
    → (send_each hs c text p).slaves ≡ p.slaves
unfolding send_each
send_each-slaves [] c text p = refl
send_each-slaves (h ∷ hs) c text p = send_each-slaves hs c text _

subscribe-count :
    (port params : List ℕ) (h k : ℕ) (p : Peers)
    → count k (on_subscribe port h params p).slaves ≡ count k p.slaves + one_if (h == k)
unfolding on_subscribe
subscribe-count port params h k p =
    ap (count k) listed ∙ count-append k p.slaves (h ∷ []) ∙ omega arith
  where
    listed : (on_subscribe port h params p).slaves ≡ p.slaves ++ (h ∷ [])
    listed = elim (Bool-cases (is_root p)) [
      | inl b ↦ rw b refl
      | inr b ↦ rw b (send_each-slaves p.masters notify_subscription _ _)
    ]

-- A host that subscribes twice stands among the slaves once more than before when its connection ends,
-- so that it is deleted and still listed.
pub subscribed_twice_stays :
    (port params again : List ℕ) (h : ℕ) (p : Peers)
    → count h (leaves h (on_subscribe port h again (on_subscribe port h params p))).slaves
      ≡ suc (count h p.slaves)
unfolding leaves
subscribed_twice_stays port params again h p =
    rw
      (
        count-remove h h (on_subscribe port h again (on_subscribe port h params p)).slaves,
        ==_refl h,
      )
      (ground (
        arith,
        subscribe-count port again h h (on_subscribe port h params p),
        subscribe-count port params h h p,
        ==_refl h,
      ))
