-- ===== src/Choice/Apply.antt =====
-- `triple`, `apply_choice`, `only_choice_differs` and `choice_of` of scripts/model_choice.py.
use nortropic_runtime.Prelude.{
  String, List, [], ◌∷◌, ◌&&◌, ◌==◌, Result, ok, err, ◌>>=◌, ◌>>◌, require, str_eq, if◌then◌else◌,
}
use nortropic_runtime.Prelude.Text.{split_when}
use nortropic_runtime.Value.{
  Value, null, text, dict, Fields, field, end, get_field, is_dict, is_truthy, eq, is_nonempty_text,
}
use nortropic_runtime.Gate.Recovery.{set_field}
use nortropic_runtime.Choice.Selection.{
  ScopeClosed, roles, has_triple_keys, executors, models, efforts, watch,
}

-- `refuse` with its message, or a `TypeError` where a mapping is no dictionary.
pub data Refusal : Type 0 where
  refused : String → Refusal
  type_error : Refusal
  closed : ScopeClosed → Refusal

-- `d.pop(k, None)`
unfoldable pub remove_field : String → Fields → Fields
remove_field k end = end
remove_field k (field j v fs) =
    let rest = remove_field k fs in if str_eq j k then rest else field j v rest

unfoldable pub pop : String → Value → Value
pop k (dict fs) = dict (remove_field k fs)
pop k v = v

-- The development selection without the choice.
unfoldable pub strip : Value → Value
unfolding pop
strip development = pop "executors" (pop "efforts" (pop "models" development))

-- The configuration with the choice set aside.
unfoldable pub aside : Value → Value
unfolding pop strip
aside config = pop "watch" (set_field config "development" (strip (get_field config "development")))

unfoldable pub only_choice_differs : Value → Value → Result Refusal (Unit {0})
unfolding aside
only_choice_differs old new = do
  require (is_dict (get_field old "development") && is_dict (get_field new "development"))
      (refused "a configuration without a development selection has no model choice to change")
  require (eq (aside old) (aside new)) (
      refused
        "the staged configuration differs from the active one beyond the choice (development.models, development.efforts, development.executors, watch)")

abbrev complete : List Value → Result Refusal Value
complete (executor ∷ model ∷ effort ∷ []) =
    if is_nonempty_text executor && is_nonempty_text model && is_nonempty_text effort
    then ok (dict (field "executor" executor (field "model" model (field "effort" effort end))))
    else err (refused "must be EXECUTOR/MODEL/EFFORT")
complete _ = err (refused "must be EXECUTOR/MODEL/EFFORT")

abbrev as_texts : List String → List Value
as_texts [] = []
as_texts (s ∷ ss) = text s ∷ as_texts ss

abbrev parts_of : String → List Value
parts_of s = as_texts (split_when (λ c. c == b'/') s)

-- `development.get(k) or {}`, where it is unpacked.
abbrev pub unpack : Value → Result Refusal Value
unpack (dict fs) = ok (dict fs)
unpack v = if is_truthy v then err type_error else ok (dict end)

-- One entry of a mapping of the development selection.
abbrev pub put_entry : String → Value → Value → Value → Result Refusal Value
put_entry mapping name v development = do
  base ← unpack (get_field development mapping)
  ok (set_field development mapping (elim name [ text k ↦ set_field base k v | _ ↦ base ]))

abbrev pub fill : List String → Value → Fields
fill [] v = end
fill (role ∷ rest) v = field role v (fill rest v)

-- A requested model of one executor, if there is one.
abbrev pub apply_name : String → Value → Value → Result Refusal Value
apply_name executor null development = ok development
apply_name executor model development = put_entry "models" (text executor) model development

-- str of what is neither a text nor a dictionary.
module _ (str : Value → String) where
  unfoldable pub triple : Value → Result Refusal Value
  triple (text s) = complete (parts_of s)
  triple (dict fs) =
      if has_triple_keys (dict fs)
      then complete (
          get_field (dict fs) "executor"
          ∷ get_field (dict fs) "model"
          ∷ get_field (dict fs) "effort"
          ∷ [])
      else err (refused "must name exactly executor, model and effort")
  triple v = complete (parts_of (str v))

  -- The executor drives every role, with that model and effort.
  unfoldable pub apply_runtime : Value → Value → Result Refusal Value
  unfolding triple
  apply_runtime null development = ok development
  apply_runtime requested development = do
    chosen ← triple requested
    let driven = set_field development "executors" (dict (fill roles (get_field chosen "executor")))
    modelled ← put_entry "models" (get_field chosen "executor") (get_field chosen "model") driven
    put_entry "efforts" (get_field chosen "executor") (get_field chosen "effort") modelled

  unfoldable pub apply_watch : Value → Value → Result Refusal Value
  unfolding triple
  apply_watch null config = ok config
  apply_watch requested config = do chosen ← triple requested; ok (set_field config "watch" chosen)

  unfoldable pub apply_choice : Value → Value → Result Refusal Value
  unfolding apply_runtime apply_watch
  apply_choice config requested = do
    let development = get_field config "development"
    require (is_dict development)
        (refused "the active release has no development selection to change")
    claude ← apply_name "claude" (get_field requested "claude") development
    codex ← apply_name "codex" (get_field requested "codex") claude
    driven ← apply_runtime (get_field requested "runtime") codex
    apply_watch (get_field requested "watch") (set_field config "development" driven)

abbrev closes : Result ScopeClosed Value → Result Refusal Value
closes (ok v) = ok v
closes (err e) = err (closed e)

-- What the release runs.
unfoldable pub choice_of : Value → Result Refusal Value
choice_of config = do
  by_role ← closes (executors config)
  by_model ← closes (models config)
  by_effort ← closes (efforts config)
  of_watch ← closes (watch config)
  ok (
      dict (
        field "executors" by_role
          (field "models" by_model (field "efforts" by_effort (field "watch" of_watch end)))))
