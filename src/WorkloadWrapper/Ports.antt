-- ===== src/WorkloadWrapper/Ports.antt =====
-- The host ports that internal/workload/wrapper.go opens.
use flotta_device_worker.Prelude.{
  ◌≡◌, refl, inl, inr, Bool, true, ◌&&◌, none, some, List, [], ◌∷◌, ◌++◌, if◌then◌else◌, arith,
  Bool-cases,
}
use flotta_device_worker.Prelude.Int.{ℤ}
use flotta_device_worker.WorkloadWrapper.Wrapper.{
  Container, Pod, is_legal, legal_ports, container_ports, get_host_ports,
}

abbrev all_legal : List ℤ → Bool
all_legal [] = true
all_legal (p ∷ ps) = is_legal p && all_legal ps

-- The host ports of all the containers, in their order.
abbrev pub host_ports : List Container → List ℤ
host_ports [] = []
host_ports (c ∷ cs) = c.host_ports ++ host_ports cs

all_legal-append : (ps qs : List ℤ) → all_legal (ps ++ qs) ≡ (all_legal ps && all_legal qs)
all_legal-append [] qs = refl
all_legal-append (p ∷ ps) qs = ground (arith, all_legal-append ps qs)

legal_ports_lem : (ps : List ℤ) → legal_ports ps ≡ (if all_legal ps then some ps else none)
legal_ports_lem [] = refl
legal_ports_lem (p ∷ ps) = elim (Bool-cases (all_legal ps)) [
  | inl good ↦ rw (legal_ports_lem ps, good) (ground arith)
  | inr bad ↦ rw (legal_ports_lem ps, bad) (ground arith)
]

container_ports_lem :
    (cs : List Container)
    → container_ports cs ≡ (if all_legal (host_ports cs) then some (host_ports cs) else none)
container_ports_lem [] = refl
container_ports_lem (c ∷ cs) = ground (
  arith,
  legal_ports_lem c.host_ports,
  container_ports_lem cs,
  all_legal-append c.host_ports (host_ports cs),
)

-- The ports of a pod are opened all or none: if each is above 0 and below 65536, they are the ports of
-- its containers in their order, and if one is not, the pod is refused.
pub get_host_ports_lem :
    (pod : Pod)
    → get_host_ports pod
      ≡ (if all_legal (host_ports pod.containers) then some (host_ports pod.containers) else none)
unfolding get_host_ports
get_host_ports_lem pod = container_ports_lem pod.containers
