-- ===== src/Remediation/Hint.antt =====
-- SAFE_NAME, SAFE_VERSION, isSafeForHint and manifestHint. The regular expressions are walked by
-- hand: a name is cut at the separators that its expression allows, and each part is checked.
use ai_devsecops_command_cen.Remediation.Version.{npm, pypi, maven, go, cargo, nuget}
use ai_devsecops_command_cen.Common.Text.{codes, is_digit, split_on}
use ai_devsecops_command_cen.Crypto.Splitting.{Text}
use ai_devsecops_command_cen.Remediation.Version.{Ecosystem}
use ai_devsecops_command_cen.Common.{
  ℕ, String, Bool, false, not, ◌&&◌, ◌||◌, List, [], ◌∷◌, leb, eqb, if◌then◌else◌, ◌&◌, any, all,
}
use ai_devsecops_command_cen.Crypto.Parsing.{is_empty}

abbrev pub is_lower : ℕ → Bool
is_lower c = leb b'a' c && leb c b'z'

abbrev pub is_alphanumeric : ℕ → Bool
is_alphanumeric c = is_digit c || (is_lower c || (leb b'A' c && leb c b'Z'))

-- One of some characters, given as a text.
abbrev pub is_among : Text → ℕ → Bool
is_among cs c = any (eqb c) cs

-- A class of a regular expression: letters and digits, or one of some others.
abbrev pub in_class : String → ℕ → Bool
in_class others c = is_alphanumeric c || is_among (codes others) c

-- `[…]+`.
abbrev pub some_of : (ℕ → Bool) → Text → Bool
some_of p cs = not (is_empty cs) && all p cs

abbrev pub starts : (ℕ → Bool) → Text → Bool
starts p [] = false
starts p (c ∷ cs) = p c

abbrev pub ends_in : (ℕ → Bool) → Text → Bool
ends_in p [] = false
ends_in p (c ∷ []) = p c
ends_in p (c ∷ d ∷ cs) = ends_in p (d ∷ cs)

abbrev pub is_npm_char : ℕ → Bool
is_npm_char c = is_lower c || (is_digit c || is_among (codes "._~-") c)

abbrev pub is_npm_first : ℕ → Bool
is_npm_first c = is_lower c || (is_digit c || is_among (codes "~-") c)

-- `[a-z0-9~-][a-z0-9._~-]*`.
abbrev pub is_npm_part : Text → Bool
is_npm_part cs = starts is_npm_first cs && all is_npm_char cs

abbrev pub is_scoped : List Text → Bool
is_scoped (scope ∷ part ∷ []) = is_npm_part scope && is_npm_part part
is_scoped _ = false

abbrev pub is_npm_name : Text → Bool
is_npm_name [] = false
is_npm_name (c ∷ cs) = if eqb c b'@' then is_scoped (split_on b'/' cs) else is_npm_part (c ∷ cs)

abbrev pub is_pypi_name : Text → Bool
is_pypi_name cs =
    starts is_alphanumeric cs && (ends_in is_alphanumeric cs && all (in_class "._-") cs)

abbrev pub is_maven_parts : List Text → Bool
is_maven_parts (artifact ∷ []) = some_of (in_class "_.-") artifact
is_maven_parts (group ∷ artifact ∷ []) =
    some_of (in_class "_.-") group && some_of (in_class "_.-") artifact
is_maven_parts _ = false

-- SAFE_NAME.
unfoldable pub is_safe_name : Ecosystem → Text → Bool
unfolding split_on
is_safe_name npm cs = is_npm_name cs
is_safe_name pypi cs = is_pypi_name cs
is_safe_name maven cs = is_maven_parts (split_on b':' cs)
is_safe_name go cs = all (some_of (in_class "._~-")) (split_on b'/' cs)
is_safe_name cargo cs = some_of (in_class "_-") cs
is_safe_name nuget cs = some_of (in_class "_.-") cs

-- SAFE_VERSION.
abbrev pub is_safe_version : Text → Bool
is_safe_version cs = some_of (in_class "._+~-") cs

unfoldable pub is_safe_for_hint : Ecosystem → String → String → Bool
unfolding is_safe_name
is_safe_for_hint eco name version = is_safe_name eco (codes name) && is_safe_version (codes version)

abbrev pub is_v : Text → Bool
is_v [] = false
is_v (c ∷ cs) = eqb c b'v'

abbrev pub command : Ecosystem → String → String → String
command npm name to = "npm install " & name & "@" & to
command pypi name to = "pip install " & name & "==" & to
command maven name to = "set <version>" & to & "</version> for " & name & " in pom.xml"
command go name to = "go get " & name & "@" & (if is_v (codes to) then to else "v" & to)
command cargo name to = "cargo update -p " & name & " --precise " & to
command nuget name to = "dotnet add package " & name & " --version " & to

abbrev pub no_command : String
no_command = "manual update required: package name or version has unexpected characters"

unfoldable pub manifest_hint : Ecosystem → String → String → String
unfolding is_safe_for_hint
manifest_hint eco name to = if is_safe_for_hint eco name to then command eco name to else no_command
