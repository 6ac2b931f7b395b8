-- ===== src/Cmd/Logging.antt =====
-- `setupLogging` of cmd/metric-plugin/main.go and cmd/step-plugin/main.go, which is the same in both.
use argo_rollouts_k6_plugin.Base.{
  Text, ℕ, ◌+◌, leb, eqb, codes, ◌==◌, ◌&&◌, ◌||◌, if◌then◌else◌, [], ◌∷◌,
}

pub data Level : Type 0 where
  level_debug level_info level_warn level_error : Level

-- The byte `c` in front of a text in lower case. The dotted capital I is 196, 176, the Kelvin sign is
-- 226, 132, 170.
abbrev lower_onto : ℕ → Text → Text
lower_onto c (d ∷ e ∷ s) =
    if eqb c 196 && eqb d 176
    then b'i' ∷ e ∷ s
    else if eqb c 226 && (eqb d 132 && eqb e 170)
    then b'k' ∷ s
    else if leb b'A' c && leb c b'Z'
    then (c + 32) ∷ d ∷ e ∷ s
    else c ∷ d ∷ e ∷ s
lower_onto c (d ∷ []) =
    if eqb c 196 && eqb d 176
    then b'i' ∷ []
    else if leb b'A' c && leb c b'Z'
    then (c + 32) ∷ d ∷ []
    else c ∷ d ∷ []
lower_onto c [] = if leb b'A' c && leb c b'Z' then (c + 32) ∷ [] else c ∷ []

-- `strings.ToLower`, as far as a comparison with an ASCII word can tell: the two characters above are
-- the only ones outside ASCII whose lower case is in ASCII.
unfoldable pub to_lower : Text → Text
to_lower [] = []
to_lower (c ∷ s) = lower_onto c (to_lower s)

abbrev level_of : Text → Level
level_of word =
    if word == codes "debug"
    then level_debug
    else if word == codes "warn" || word == codes "warning"
    then level_warn
    else if word == codes "error"
    then level_error
    else level_info

-- The level that `setupLogging` gives to the default logger, from the value of `LOG_LEVEL`.
unfoldable pub logging_level : Text → Level
logging_level value = level_of (to_lower value)
