-- ===== src/K8s/Convert/Service/RoundTrip.antt =====
-- A service on its way to the cluster and back.
use board_old.Prelude.{◌≡◌, refl, some, inl, inr, Bool-cases}
use board_old.Prelude.{if◌then◌else◌}
use board_old.Prelude.Go.{elems, copy_back}
use board_old.Prelude.Int.{pos, eq_ℤ, to_int32}
use board_old.Model.Service.{ServicePort, Service}
use board_old.K8s.Convert.Meta.{from-to_object_meta}
use board_old.K8s.Convert.Service.{
  to_k8s_port, from_k8s_port, timeout_second, to_k8s_service, from_k8s_service,
}

from-to_port : (p : ServicePort) → from_k8s_port (to_k8s_port p) ≡ p
unfolding to_k8s_port from_k8s_port
from-to_port p = refl

-- What the cluster makes of a service's session affinity: the flag is 0 or 1, the time is 0 with
-- the flag down, and else 1800 seconds or the given time in 32 bits.
abbrev pub normal : Service → Service
normal s = record s {
  ports = some (elems s.ports);
  session_affinity_flag = if eq_ℤ s.session_affinity_flag (pos 0) then pos 0 else pos 1;
  session_affinity_time = timeout_second s;
}

-- Every service that is sent is read back without a panic, and reads as it was, but for its session
-- affinity in normal form and a nil slice of ports as an empty one.
pub from-to_k8s_service : (s : Service) → from_k8s_service (to_k8s_service s) ≡ some (normal s)
unfolding from_k8s_service to_k8s_service timeout_second
from-to_k8s_service s = elim (Bool-cases (eq_ℤ s.session_affinity_flag (pos 0))) [
  | inl down ↦ simp down (λ i. some (record s {
    object_meta = from-to_object_meta s.object_meta i;
    ports = copy_back from_k8s_port to_k8s_port from-to_port (elems s.ports) i;
    session_affinity_flag = pos 0;
    session_affinity_time = pos 0;
  }))
  | inr up ↦ simp up (λ i. some (record s {
    object_meta = from-to_object_meta s.object_meta i;
    ports = copy_back from_k8s_port to_k8s_port from-to_port (elems s.ports) i;
    session_affinity_flag = pos 1;
    session_affinity_time =
        if eq_ℤ s.session_affinity_time (pos 0) then pos 1800 else to_int32 s.session_affinity_time;
  }))
]
