-- ===== src/Planner/Actions.antt =====
-- schemas/parameters.py, actions/ and registry.py.
use self_healing_agent.Prelude.{
  ◌==◌, ◌&&◌, none, str_eq, [], true, false, if◌then◌else◌, has, leb, any, all, some, length,
  Option, is_some, ◌||◌, not, none_or, Bool, String, ◌∷◌, ℕ, List, some_and,
}
use self_healing_agent.Planner.Schemas.{text, null, Parameters, Value, get, Host}
use self_healing_agent.Text.{is_word, is_hex, word_here, codes}

-- `SHELL_INJECTION_PATTERN`: the characters, and the words between boundaries.
unfoldable pub is_shell_char : ℕ → Bool
is_shell_char c = any (λ s. c == s) (codes ";&|`$><\n\r")

unfoldable pub finds_shell : Bool → List ℕ → Bool
finds_shell after_word [] = false
finds_shell after_word (c ∷ cs) =
    let later = finds_shell (is_word c) cs in
    is_shell_char c
    || (not after_word
        && any (λ w. word_here (codes w) (c ∷ cs))
            ("sudo" ∷ "rm" ∷ "exec" ∷ "sh" ∷ "bash" ∷ "powershell" ∷ "cmd" ∷ []))
    || later

-- `validate_no_shell` raises
unfoldable pub has_shell : String → Bool
has_shell s = finds_shell false (codes s)

unfoldable pub within : ℕ → ℕ → ℕ → Bool
within least most n = leb least n && leb n most

-- `^[a-fA-F0-9]{12,64}$`
unfoldable pub is_container_id : String → Bool
is_container_id s = all is_hex (codes s) && within 12 64 (length (codes s))

unfoldable pub text_and : Value → (String → Bool) → Bool
text_and (text s) p = p s
text_and _ p = false

unfoldable pub is_null : Value → Bool
is_null null = true
is_null _ = false

-- A field of a schema: its name, and whether pydantic takes what the dictionary holds under it.
pub record Field : Type 0 where
  pub name : String
  pub takes : Option Value → Bool

-- `model_validate` with `extra="forbid"`
unfoldable pub model_validate : List Field → Parameters → Bool
model_validate fields params =
    all (λ kv. any (λ f. str_eq f.name kv.0) fields) params
    && all (λ f. f.takes (get params f.name)) fields

unfoldable pub container_id_field : Field
container_id_field = record {
  name = "container_id";
  takes = λ o. some_and o (λ v. text_and v is_container_id);
}

unfoldable pub uuid_field : Host → String → Field
uuid_field host key = record { name = key; takes = λ o. some_and o (λ v. is_some (host.uuid_of v)) }

unfoldable pub generation_field : Host → Field
generation_field host = record {
  name = "binding_generation";
  takes = λ o. none_or o (λ v. is_null v || some_and (host.int_of v) (leb 1));
}

unfoldable pub int_field : Host → String → ℕ → Field
int_field host key most = record {
  name = key;
  takes = λ o. none_or o (λ v. some_and (host.int_of v) (within 1 most));
}

-- `min_length=1, max_length=most`, and `validate_strings`
unfoldable pub safe_field : String → ℕ → Field
safe_field key most = record {
  name = key;
  takes = λ o.
      some_and o (λ v. text_and v (λ s. within 1 most (length (codes s)) && not (has_shell s)));
}

unfoldable pub inspect_container_params : Host → List Field
inspect_container_params host =
    container_id_field ∷ uuid_field host "resource_id" ∷ generation_field host ∷ []

unfoldable pub restart_container_params : Host → List Field
restart_container_params host =
    container_id_field
    ∷ uuid_field host "resource_id"
    ∷ record {
      name = "service_name";
      takes = λ o. none_or o (λ v. text_and v (λ s. not (has_shell s) && str_eq s "demo-api"));
    }
    ∷ int_field host "timeout_seconds" 120
    ∷ generation_field host
    ∷ []

unfoldable pub wait_for_stabilization_params : Host → List Field
wait_for_stabilization_params host =
    uuid_field host "resource_id"
    ∷ int_field host "duration_seconds" 300
    ∷ record {
      name = "verification_profile";
      takes =
          λ o. none_or o (λ v. text_and v (λ s. leb (length (codes s)) 64 && not (has_shell s)));
    }
    ∷ []

unfoldable pub notify_operator_params : Host → List Field
notify_operator_params host =
    uuid_field host "incident_id"
    ∷ safe_field "reason" 256
    ∷ record {
      name = "severity";
      takes = λ o. none_or o (λ v. text_and v (has ("LOW" ∷ "MEDIUM" ∷ "HIGH" ∷ "CRITICAL" ∷ [])));
    }
    ∷ safe_field "message" 4096
    ∷ []

unfoldable pub open_incident_ticket_params : Host → List Field
open_incident_ticket_params host =
    uuid_field host "incident_id"
    ∷ safe_field "title" 256
    ∷ safe_field "summary" 4096
    ∷ safe_field "root_cause" 128
    ∷ safe_field "escalation_reason" 2048
    ∷ []

pub data ActionCategory : Type 0 where
  read_only workload_mutation verification_declaration : ActionCategory
  operator_notification local_escalation : ActionCategory

-- A `BaseAction`, as the planner uses it. `check_preconditions` has no answer where it raises.
pub record BaseAction : Type 0 where
  pub name : String
  pub category : ActionCategory
  pub validate_parameters : Parameters → Bool
  pub check_preconditions : Parameters → Option Bool

-- An action with the `check_preconditions` of the base class.
abbrev pub plain_action : String → ActionCategory → List Field → BaseAction
plain_action name category fields = record {
  name = name;
  category = category;
  validate_parameters = model_validate fields;
  check_preconditions = λ params. some true;
}

-- The service of validated parameters is "demo-api", which is also the default.
unfoldable pub restart_preconditions : Host → Parameters → Option Bool
restart_preconditions host params =
    if model_validate (restart_container_params host) params
    then some (none_or (get params "service_name") (λ v. text_and v (λ s. str_eq s "demo-api")))
    else none

unfoldable pub restart_container_action : Host → BaseAction
restart_container_action host = record {
  name = "restart_container";
  category = workload_mutation;
  validate_parameters = model_validate (restart_container_params host);
  check_preconditions = restart_preconditions host;
}

-- `_actions`
abbrev pub Registry : Type 0
Registry = List (String × BaseAction)

-- `_actions[action.name] = action`
unfoldable pub register : BaseAction → Registry → Registry
register action [] = (action.name, action) ∷ []
register action ((n, a) ∷ actions) =
    let rest = register action actions in
    if str_eq n action.name then (n, action) ∷ actions else (n, a) ∷ rest

-- `get`, which raises where `has_action` is false
unfoldable pub get_action : Registry → String → Option BaseAction
get_action [] key = none
get_action ((n, a) ∷ actions) key =
    let rest = get_action actions key in if str_eq n key then some a else rest

unfoldable pub register_all : List BaseAction → Registry → Registry
register_all [] registry = registry
register_all (a ∷ actions) registry = register_all actions (register a registry)

-- `ActionRegistry(register_defaults=True)`
unfoldable pub default_registry : Host → Registry
default_registry host =
    register_all
      (plain_action "inspect_container" read_only (inspect_container_params host)
        ∷ restart_container_action host
        ∷ plain_action "wait_for_stabilization" verification_declaration
            (wait_for_stabilization_params host)
        ∷ plain_action "notify_operator" operator_notification (notify_operator_params host)
        ∷ plain_action "open_incident_ticket" local_escalation (open_incident_ticket_params host)
        ∷ [])
      []
