-- ===== src/Github/Accounts.antt =====
-- internal/github/accounts.go: the logins in the output of `gh auth status`, and the cache of tokens.
use lac.Base.{
  String, ◌==◌, not, ◌&&◌, Option, none, some, List, [], ◌∷◌, ◌++◌, find, if◌then◌else◌, select,
}
use lac.Strings.{trim_space, cut, contains, has_prefix, before}

abbrev pub after_marker : Option (String × String) → Option String
after_marker none = none
after_marker (some (_, after)) = some after

-- The login of what follows `account `, unless it is empty.
abbrev pub login_of : Option String → Option String
login_of none = none
login_of (some after) =
    if before " " (trim_space after) == ""
    then none
    else some (trim_space (before " " (trim_space after)))

-- `loginFrom`.
unfoldable pub login_from : String → Option String
unfolding trim_space cut
login_from line =
    if contains line "Logged in to" then login_of (after_marker (cut "account " line)) else none

-- What `parseAccounts` keeps from line to line: the accounts, the active one, and the current one.
pub record Seen : Type 0 where
  pub accounts : List String
  pub active : String
  pub current : String

abbrev pub see_login : Option String → String → Seen → Seen
see_login (some name) line s = record s { accounts = s.accounts ++ name ∷ []; current = name }
see_login none line s =
    if not (s.current == "") && has_prefix line "- Active account:" && contains line "true"
    then record s { active = s.current }
    else s

-- The loop of `parseAccounts`, over the lines that the scanner makes of the output.
unfoldable pub see_lines : List String → Seen → Seen
unfolding login_from trim_space cut
see_lines [] s = s
see_lines (line ∷ lines) s =
    see_lines lines (see_login (login_from (trim_space line)) (trim_space line) s)

-- `parseAccounts`: the active account first.
unfoldable pub parse_accounts : List String → List String
unfolding see_lines
parse_accounts lines =
    let s = see_lines lines (record { accounts = []; active = ""; current = "" }) in
    if s.active == "" then s.accounts else s.active ∷ select (λ a. not (a == s.active)) s.accounts

-- `tokens`, a map from accounts to tokens.
pub record Token : Type 0 where
  pub account : String
  pub value : String

abbrev pub Tokens : Type 0
Tokens = List Token

abbrev token_value : Option Token → Option String
token_value none = none
token_value (some t) = some t.value

unfoldable pub get : String → Tokens → Option String
get account tokens = token_value (find (λ t. t.account == account) tokens)

unfoldable pub forget : String → Tokens → Tokens
forget account tokens = select (λ t. not (t.account == account)) tokens

unfoldable pub put : String → String → Tokens → Tokens
unfolding forget
put account value tokens = record { account = account; value = value } ∷ forget account tokens
