-- ===== src/Common/Pusher/Channel.antt =====
-- `/^(?:public|(?:public|private|presence)-[A-Za-z0-9_\-=@,.;]+)$/`, which the Pusher service, the
-- notification action and the rule schema share.
use backend_task_management.Base.{
  Char, code, String, ◌==◌, ◌&&◌, ◌||◌, Bool, true, false, Option, none, some, eqb, leb, non_empty,
  if◌then◌else◌,
}

-- `[A-Za-z0-9_\-=@,.;]`
unfoldable pub is_channel_char : Char → Bool
is_channel_char c =
    let n = code c in
    (leb b'A' n && leb n b'Z')
    || (leb b'a' n && leb n b'z')
    || (leb b'0' n && leb n b'9')
    || eqb n b'_'
    || eqb n b'-'
    || eqb n b'='
    || eqb n b'@'
    || eqb n b','
    || eqb n b'.'
    || eqb n b';'

unfoldable pub all_channel_chars : String → Bool
unfolding is_channel_char
all_channel_chars String.[] = true
all_channel_chars (String.◌∷◌ c s) = is_channel_char c && all_channel_chars s

-- What follows a prefix.
unfoldable pub strip : String → String → Option String
strip String.[] s = some s
strip (String.◌∷◌ c p) String.[] = none
strip (String.◌∷◌ c p) (String.◌∷◌ d s) = if eqb (code c) (code d) then strip p s else none

abbrev is_rest : Option String → Bool
is_rest none = false
is_rest (some rest) = non_empty rest && all_channel_chars rest

unfoldable pub is_channel : String → Bool
unfolding all_channel_chars strip
is_channel s =
    s == "public"
    || is_rest (strip "public-" s)
    || is_rest (strip "private-" s)
    || is_rest (strip "presence-" s)
