-- ===== src/Deploy/View/Quantities.antt =====
-- The requests and limits of a container of a draft, sent to the cluster and read back.
use board_old.Prelude.{
  ◌≡◌, refl, sym, ap, ◌∙◌, Bool, true, false, Option, none, some, String, List, [], if◌then◌else◌,
}
use mathlib.Core.Option.{some-injective}
use mathlib.Core.Path.{subst}
use board_old.Prelude.Go.{lookup, insert, lookup-insert}
use board_old.Prelude.Text.{str_eq, str_eq_refl}
use board_old.Prelude.Panic.Laws.{bind-some_inv}
use board_old.Model.ServiceConfig.{Container}
use board_old.Model.Pod.{ResourceRequirements}
use board_old.K8s.Api.Meta.{Quantities}
use board_old.K8s.Api.Pod as Pods
use board_old.K8s.Convert.Container.{put_parsed, put_text, parse_resources, resources_text}
use board_old.Deploy.Containers.{requirements, set_if}
use board_old.Deploy.Cluster.{text_or_none, lookup-set_if, cpu_text, memory_text, gpu_text}
use board_old.Deploy.View.{quantity}

module _ (Q : Quantities) where
  abbrev text_of : Option Q.Quantity → String
  text_of none = ""
  text_of (some q) = Q.to_string q

  -- An empty text, or the text of the quantity that is parsed.
  abbrev pub printed : String → String
  printed t = if str_eq t "" then "" else text_of (Q.must_parse t)

  -- What a map has after a text was parsed and put.
  put_here :
      (key t : String) (dst : List (String × Q.Quantity)) {out : List (String × Q.Quantity)}
      → lookup key dst ≡ none
      → put_parsed Q key (text_or_none t) dst ≡ some out
      → text_of (lookup key out) ≡ printed t
  put_here key t dst {out} absent h = by_text (str_eq t "") h
    where
      by_text :
          (b : Bool)
          → put_parsed Q key (if b then none else some t) dst ≡ some out
          → text_of (lookup key out) ≡ (if b then "" else text_of (Q.must_parse t))
      by_text true k =
          ap (λ m. text_of (lookup key m)) (sym (some-injective _ _ k)) ∙ ap text_of absent
      by_text false k =
          let (q, e, m) = bind-some_inv (Q.must_parse t) _ k in
          ap (λ entries. text_of (lookup key entries)) (sym (some-injective _ _ m))
          ∙ ap text_of (
              lookup-insert key key q dst
              ∙ ap (λ b. if b then some q else lookup key dst) (str_eq_refl key))
          ∙ sym (ap text_of e)

  put_other :
      (key other : String) (o : Option String) (dst : List (String × Q.Quantity))
      {out : List (String × Q.Quantity)}
      → str_eq key other ≡ false
      → put_parsed Q key o dst ≡ some out
      → lookup other out ≡ lookup other dst
  put_other key other none dst apart h = ap (lookup other) (sym (some-injective _ _ h))
  put_other key other (some t) dst {out} apart h =
      let (q, _, e) = bind-some_inv (Q.must_parse t) _ h in
      ap (lookup other) (sym (some-injective _ _ e))
      ∙ lookup-insert key other q dst
      ∙ ap (λ b. if b then some q else lookup other dst) apart

  -- The texts that are read of the quantities of a map.
  two_texts :
      (m c : Option Q.Quantity)
      → let texts = some (put_text Q "memory" m (put_text Q "cpu" c [])) in
        (quantity "cpu" texts ≡ text_of c) × (quantity "memory" texts ≡ text_of m)
  unfolding quantity lookup insert
  two_texts none none = (refl, refl)
  two_texts none (some c) = (refl, refl)
  two_texts (some m) none = (refl, refl)
  two_texts (some m) (some c) = (refl, refl)

  three_texts :
      (g m c : Option Q.Quantity)
      → let texts =
          some (put_text Q "nvidia.com/gpu" g (put_text Q "memory" m (put_text Q "cpu" c []))) in
        (quantity "cpu" texts ≡ text_of c)
        × (quantity "memory" texts ≡ text_of m)
        × (quantity "nvidia.com/gpu" texts ≡ text_of g)
  unfolding quantity lookup insert
  three_texts none none none = (refl, refl, refl)
  three_texts none none (some c) = (refl, refl, refl)
  three_texts none (some m) none = (refl, refl, refl)
  three_texts none (some m) (some c) = (refl, refl, refl)
  three_texts (some g) none none = (refl, refl, refl)
  three_texts (some g) none (some c) = (refl, refl, refl)
  three_texts (some g) (some m) none = (refl, refl, refl)
  three_texts (some g) (some m) (some c) = (refl, refl, refl)

  -- What is shown of requests and limits that were parsed.
  pub record ArePrinted (c : Container) (r : ResourceRequirements) : Type 0 where
    pub cpu_request : quantity "cpu" r.requests ≡ printed c.cpu_request
    pub mem_request : quantity "memory" r.requests ≡ printed c.mem_request
    pub cpu_limit : quantity "cpu" r.limits ≡ printed c.cpu_limit
    pub mem_limit : quantity "memory" r.limits ≡ printed c.mem_limit
    pub gpu_limit : quantity "nvidia.com/gpu" r.limits ≡ printed c.gpu_limit

  pub parse_resources-ArePrinted :
      (c : Container) {r : Pods.ResourceRequirements Q.Quantity}
      → parse_resources Q (requirements c) ≡ some r
      → ArePrinted c (resources_text Q r)
  unfolding parse_resources requirements resources_text lookup
  parse_resources-ArePrinted c {r} h =
      let reqs = set_if "memory" c.mem_request (set_if "cpu" c.cpu_request []) in
      let both = set_if "memory" c.mem_limit (set_if "cpu" c.cpu_limit []) in
      let lims = set_if "nvidia.com/gpu" c.gpu_limit both in
      let (a, ea, h₁) = bind-some_inv (put_parsed Q "cpu" (lookup "cpu" reqs) []) _ h in
      let (b, eb, h₂) = bind-some_inv (put_parsed Q "memory" (lookup "memory" reqs) a) _ h₁ in
      let (d, ed, h₃) = bind-some_inv (put_parsed Q "cpu" (lookup "cpu" lims) []) _ h₂ in
      let (e, ee, h₄) = bind-some_inv (put_parsed Q "memory" (lookup "memory" lims) d) _ h₃ in
      let (f, ef, last) =
        bind-some_inv (put_parsed Q "nvidia.com/gpu" (lookup "nvidia.com/gpu" lims) e) _ h₄ in
      let (cpu, memory) = two_texts (lookup "memory" b) (lookup "cpu" b) in
      let (cpu', memory', gpu) =
        three_texts (lookup "nvidia.com/gpu" f) (lookup "memory" f) (lookup "cpu" f) in
      subst (λ r'. ArePrinted c (resources_text Q r')) (some-injective _ _ last)
        (record {
          cpu_request =
              cpu
              ∙ ap text_of (put_other "memory" "cpu" (lookup "memory" reqs) a refl eb)
              ∙ put_here "cpu" c.cpu_request [] refl (
                  ap (λ o. put_parsed Q "cpu" o []) (sym (cpu_text c.cpu_request c.mem_request))
                  ∙ ea);
          mem_request =
              memory
              ∙ put_here "memory" c.mem_request a
                  (put_other "cpu" "memory" (lookup "cpu" reqs) [] refl ea)
                  (ap (λ o. put_parsed Q "memory" o a)
                      (sym (memory_text c.cpu_request c.mem_request))
                    ∙ eb);
          cpu_limit =
              cpu'
              ∙ ap text_of (
                  put_other "nvidia.com/gpu" "cpu" (lookup "nvidia.com/gpu" lims) e refl ef
                  ∙ put_other "memory" "cpu" (lookup "memory" lims) d refl ee)
              ∙ put_here "cpu" c.cpu_limit [] refl (
                  ap (λ o. put_parsed Q "cpu" o [])
                    (sym (
                      lookup-set_if "cpu" "nvidia.com/gpu" c.gpu_limit both
                      ∙ cpu_text c.cpu_limit c.mem_limit))
                  ∙ ed);
          mem_limit =
              memory'
              ∙ ap text_of
                  (put_other "nvidia.com/gpu" "memory" (lookup "nvidia.com/gpu" lims) e refl ef)
              ∙ put_here "memory" c.mem_limit d
                  (put_other "cpu" "memory" (lookup "cpu" lims) [] refl ed)
                  (ap (λ o. put_parsed Q "memory" o d)
                      (sym (
                        lookup-set_if "memory" "nvidia.com/gpu" c.gpu_limit both
                        ∙ memory_text c.cpu_limit c.mem_limit))
                    ∙ ee);
          gpu_limit =
              gpu
              ∙ put_here "nvidia.com/gpu" c.gpu_limit e
                  (put_other "memory" "nvidia.com/gpu" (lookup "memory" lims) d refl ee
                    ∙ put_other "cpu" "nvidia.com/gpu" (lookup "cpu" lims) [] refl ed)
                  (ap (λ o. put_parsed Q "nvidia.com/gpu" o e)
                      (sym (gpu_text c.cpu_limit c.mem_limit c.gpu_limit))
                    ∙ ef);
        })
