-- ===== src/RunGroup/Parse.antt =====
-- coreapp/core/run.go: `parseRunnerSettings`, `setParametersToImpl` and `setupImplAndAddToRunContext` for the
-- runners of one kind. An implementation is a value of the type `I`; a runner holds its implementation and
-- its parameters.
use oqtopus_engine.Prelude.{
  String, Option, none, some, List, [], ◌∷◌, ◌++◌, Outcome, ok, err, ◌>>=◌,
}
use oqtopus_engine.Prelude.Dict.{Dict, lookup, insert, string_eq}
use oqtopus_engine.Core.Fault.{Fault, runner_not_found}
use oqtopus_engine.Core.Setting.{ComponentSetting}

pub record Runner (I : Type 0) : Type 0 where
  pub params : Option ComponentSetting
  pub impl : I

module _ {I : Type 0} where
  -- The loop of `parseRunnerSettings`: the names that the settings have, and the runners so far.
  unfoldable pub parse_from :
      Dict String I → List String → Dict String (Runner I) → Outcome Fault (Dict String (Runner I))
  parse_from impls [] runners = ok runners
  parse_from impls (name ∷ names) runners = elim (lookup name impls) [
    | none ↦ err (runner_not_found name)
    | some i ↦ parse_from impls names (insert name (record { params = none; impl = i }) runners)
  ]

  unfoldable pub parse_runner_settings :
      Dict String I → List String → Outcome Fault (Dict String (Runner I))
  unfolding parse_from
  parse_runner_settings impls names = parse_from impls names []

  -- `setParametersToImpl`: the first error ends it.
  unfoldable pub set_parameters_to_impl :
      (Option ComponentSetting → I → Outcome Fault I)
      → Dict String (Runner I)
      → Outcome Fault (Dict String (Runner I))
  set_parameters_to_impl set_params [] = ok []
  set_parameters_to_impl set_params ((name, r) ∷ runners) = set_params r.params r.impl >>= λ i.
      set_parameters_to_impl set_params runners >>= λ rest.
      ok ((name, record r { impl = i }) ∷ rest)

  -- `setupImplAndAddToRunContext`: the runners that are added to the group, in order.
  unfoldable pub setup_impl_and_add :
      (I → Outcome Fault I)
      → Dict String (Runner I)
      → List (Runner I)
      → Outcome Fault (List (Runner I))
  setup_impl_and_add setup [] group = ok group
  setup_impl_and_add setup ((name, r) ∷ runners) group =
      setup r.impl >>= λ i. setup_impl_and_add setup runners (group ++ record r { impl = i } ∷ [])
