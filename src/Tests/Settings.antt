-- ===== src/Tests/Settings.antt =====
-- The settings in a small environment.
use opengnk.Prelude.{true, false, [], ◌≡◌, refl, if◌then◌else◌}
use opengnk.Text.{Bytes, codes, equal, starts_with}
use opengnk.Text.Trim.{trim_space, trim_front, width, reverse_onto}
use opengnk.Upstream.{trim_right_slash}
use opengnk.Config.Settings.{trim_suffix, lower, or_else, setting, switch, source}

-- Two variables are set.
abbrev getenv : Bytes → Bytes
getenv name =
    if equal name (codes "GONKA_ENDPOINT")
    then codes " http://n:8000/v1/ "
    else if equal name (codes "SANITIZE")
    then codes "True"
    else []

strips_version : source getenv ≡ codes "http://n:8000"
unfolding source setting or_else trim_suffix trim_right_slash trim_space trim_front width
    reverse_onto equal starts_with
strips_version = refl

folds_case : switch getenv (codes "SANITIZE") ≡ true
unfolding switch setting lower trim_space trim_front width reverse_onto equal starts_with
folds_case = refl

off_by_default : switch getenv (codes "SIMULATE_TOOL_CALLS") ≡ false
unfolding switch setting lower trim_space trim_front width reverse_onto equal starts_with
off_by_default = refl
