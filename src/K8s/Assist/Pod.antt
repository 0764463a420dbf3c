-- ===== src/K8s/Assist/Pod.antt =====
-- podassist.go: the client for pods, of which the list and the deletion are used here.
use board_old.Prelude.{String, some, if◌then◌else◌}
use board_old.Prelude.Effect.{Act, ◌>>=◌, reads, or_panic, ok, err}
use board_old.Model.Workload.{PodList, ListOptions}
use board_old.K8s.Api.Meta.{Quantities}
use board_old.K8s.Client.{PodClient}
use board_old.K8s.Convert.Pod.{from_k8s_pod_list, to_k8s_list_options}

module _ (Q : Quantities) {State : Type 0} (P : PodClient Q.Quantity State) where
  unfoldable pub list : String → ListOptions → Act State PodList
  list namespace opts = do
    found ← reads (λ s. P.list s namespace (to_k8s_list_options opts))
    or_panic (from_k8s_pod_list Q (some found))

  unfoldable pub delete : String → String → Act State (Unit {0})
  delete namespace name s =
      let (done, s') = P.delete s namespace name in (if done then ok tt else err, s')
