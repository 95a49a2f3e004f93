-- ===== src/Task/Binding.antt =====
-- `for_task` of runtime/development_binding.py, on the configuration of the active release.
use nortropic_runtime.Prelude.{
  String, Bool, false, Option, none, some, ◌&&◌, ◌==◌, Result, ok, ◌>>◌, require,
}
use nortropic_runtime.Value.{Value, null, dict, count_fields, get_field, is_dict, eq}
use nortropic_runtime.Gate.Require.{equals, office}
use nortropic_runtime.Task.Validate.{has_field}

-- `ScopeClosed` with its message.
pub data Unbound : Type 0 where
  closed : String → Unbound

-- `set(selected) == {'contract_sha256', 'work'}`
abbrev is_selection : Value → Bool
is_selection (dict fs) =
    count_fields fs == 2 && has_field (dict fs) "contract_sha256" && has_field (dict fs) "work"
is_selection _ = false

abbrev is_active : Value → Value → Bool
is_active active selected =
    is_dict active
    && equals (get_field active "id") "office-ap11"
    && eq (get_field active "contract_sha256") (get_field selected "contract_sha256")

-- The contract of the scope that a selected task belongs to.
abbrev bind : Value → Value → Value → Result Unbound (Option Value)
bind null task config = ok none
bind selected task config = do
  require (is_selection selected && equals (get_field task "target") office)
      (closed "Invalid development scope binding")
  require (is_active (get_field config "development") selected)
      (closed "Development responsibility is not explicitly activated")
  ok (some (get_field selected "contract_sha256"))

unfoldable pub for_task : Value → Value → Result Unbound (Option Value)
for_task task config = bind (get_field task "development") task config
