-- ===== src/Validators/Rules.antt =====
-- The check of the API groups and resources that the webhooks' rules name.
use Prim.Native.Char.{Char, code}
use library_olm.Prelude.{
  ℕ, String, Bool, List, [], ◌∷◌, ◌++◌, contains, nat_eq, flat_map, if◌then◌else◌, ◌==◌,
}
use library_olm.Registry.{Kube, RegistryV1, Webhook, WebhookRule}
use library_olm.Validators.Errors.{ValidationError, forbidden_api_group, forbidden_resource}
use library_olm.Validators.References.{is_conversion}

-- `strings.ToLower` on the characters whose lower case is an ASCII letter: A to Z, the capital I with
-- a dot and the Kelvin sign. It maps no other character into ASCII, and the names that the result is
-- compared with are ASCII.
abbrev lower_cases : List (ℕ × Char)
lower_cases =
    (65, "a")
    ∷ (66, "b")
    ∷ (67, "c")
    ∷ (68, "d")
    ∷ (69, "e")
    ∷ (70, "f")
    ∷ (71, "g")
    ∷ (72, "h")
    ∷ (73, "i")
    ∷ (74, "j")
    ∷ (75, "k")
    ∷ (76, "l")
    ∷ (77, "m")
    ∷ (78, "n")
    ∷ (79, "o")
    ∷ (80, "p")
    ∷ (81, "q")
    ∷ (82, "r")
    ∷ (83, "s")
    ∷ (84, "t")
    ∷ (85, "u")
    ∷ (86, "v")
    ∷ (87, "w")
    ∷ (88, "x")
    ∷ (89, "y")
    ∷ (90, "z")
    ∷ (304, "i")
    ∷ (8490, "k")
    ∷ []

unfoldable pub lower_char : List (ℕ × Char) → Char → Char
lower_char [] c = c
lower_char (e ∷ es) c = let rest = lower_char es c in if nat_eq (code c) e.0 then e.1 else rest

unfoldable pub to_lower : String → String
unfolding lower_char
to_lower String.[] = ""
to_lower (String.◌∷◌ c s) = String.◌∷◌ (lower_char lower_cases c) (to_lower s)

abbrev pub forbidden_webhook_rule_api_groups : List String
forbidden_webhook_rule_api_groups = "olm.operatorframework.io" ∷ "*" ∷ []

abbrev pub forbidden_admission_registration_resources : List String
forbidden_admission_registration_resources =
    "*" ∷ "mutatingwebhookconfiguration" ∷ "mutatingwebhookconfigurations"
    ∷ "validatingwebhookconfiguration" ∷ "validatingwebhookconfigurations" ∷ []

abbrev pub is_forbidden_resource : String → Bool
is_forbidden_resource resource =
    contains forbidden_admission_registration_resources (to_lower resource)

-- the loop over the resources of a rule
unfoldable pub forbidden_resources : String → String → List String → List ValidationError
forbidden_resources name api_group [] = []
forbidden_resources name api_group (resource ∷ resources) =
    (if is_forbidden_resource resource then forbidden_resource name resource api_group ∷ [] else [])
    ++ forbidden_resources name api_group resources

module _ (k : Kube) where
  unfoldable pub check_api_group : String → WebhookRule k → String → List ValidationError
  unfolding forbidden_resources
  check_api_group name rule api_group =
      (if contains forbidden_webhook_rule_api_groups api_group
        then forbidden_api_group name api_group ∷ []
        else [])
      ++ (if api_group == "admissionregistration.k8s.io"
          then forbidden_resources name api_group rule.resources
          else [])

  unfoldable pub check_rules : Webhook k → List ValidationError
  unfolding check_api_group
  check_rules wh =
      if is_conversion k wh
      then []
      else flat_map
          (λ (rule : WebhookRule k).
            flat_map (check_api_group wh.generate_name rule) rule.api_groups)
          wh.rules

  unfoldable pub check_webhook_rules : RegistryV1 k → List ValidationError
  unfolding check_rules
  check_webhook_rules rv1 = flat_map check_rules rv1.csv.webhook_definitions
