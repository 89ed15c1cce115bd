-- ===== src/Tests/Paths.antt =====
-- Path handling at concrete inputs.
use flowc.Prelude.{◌≡◌, refl, string_eq, true, false, String}
use text.Mathlib.TextLemmas.{cons≢nil}
use flowc.Translator.Paths.{
  truncate_path_params, convert_path_to_regex, normalize_base_path, starts_with_slash,
  next_in_param,
}
use flowc.Translator.Paths.Templates.{pieces, IsTemplate, Instance}

truncate_users : truncate_path_params "/users/{id}/posts" ≡ "/users/"
unfolding truncate_path_params
truncate_users = refl

convert_users : convert_path_to_regex "/a.b/{id}/x" ≡ "/a\\.b/[^/]+/x"
unfolding convert_path_to_regex
convert_users = refl

normalize_api : normalize_base_path "api/" ≡ "/api"
unfolding normalize_base_path
normalize_api = refl

abbrev pub template : String
template = "/u/{i}"

pub template-IsTemplate : IsTemplate false template
unfolding next_in_param
template-IsTemplate =
    (λ _. refl, (λ _. refl, (λ _. refl, (λ _. refl, (λ _. refl, (λ h. h, refl))))))

pub template-Instance : Instance (pieces false template) "/u/7"
unfolding pieces next_in_param
template-Instance =
    ("u/7", refl, ("/7", refl, ("7", refl, ("7", "", refl, cons≢nil, (refl, tt), refl))))

pub template-slash : starts_with_slash template ≡ true
unfolding starts_with_slash
template-slash = refl
