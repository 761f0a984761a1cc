-- ===== src/Prwatch/Accounts.antt =====
-- internal/service/prwatch/prwatch.go: which account a pull request is read with.
use lac.Base.{
  String, ◌==◌, Option, none, some, List, [], ◌∷◌, ◌≡◌, refl, leb, length, Bool-cases, eq_iff, inl,
  inr, if◌then◌else◌,
}
use lac.Core.Watch.{Watch}
use lac.Github.PullRequest.{PullRequest}
use lac.Github.Client.{Answer, answered, failed, not_visible, unavailable, no_cli, refused}
use lac.Prwatch.State.{Forge}
use lac.Prwatch.Polling.{Sighting, ask, or_next, try_accounts, try_others, read_active, read}

-- What a reading says is true: an observation was made with the account it names, an error was
-- answered to some account, and where the pull request is not found, `Gone` holds.
unfoldable pub IsTrue : Forge → Watch → Type 0 → Sighting → Type 0
IsTrue forge watch Gone (answered (p, a)) = ask forge watch a ≡ answered p
IsTrue forge watch Gone (failed not_visible) = Gone
IsTrue forge watch Gone (failed unavailable) =
    (a : String) × (ask forge watch a ≡ failed unavailable)
IsTrue forge watch Gone (failed no_cli) = (a : String) × (ask forge watch a ≡ failed no_cli)
IsTrue forge watch Gone (failed refused) = (a : String) × (ask forge watch a ≡ failed refused)

-- The account is told that there is no such pull request.
abbrev pub Hidden : Forge → Watch → String → Type 0
Hidden forge watch a = ask forge watch a ≡ failed not_visible

-- So is every one of the accounts.
unfoldable pub HiddenFrom : Forge → Watch → List String → Type 0
HiddenFrom forge watch [] = Unit {0}
HiddenFrom forge watch (a ∷ accounts) = Hidden forge watch a × HiddenFrom forge watch accounts

-- The logins beside the active one, where there is more than one.
unfoldable pub others : Option (List String) → List String
others none = []
others (some accounts) = if leb (length accounts) 1 then [] else accounts

module _ (forge : Forge) (watch : Watch) where
  IsTrue-weaken :
      {G H : Type 0} (r : Sighting) → (G → H) → IsTrue forge watch G r → IsTrue forge watch H r
  unfolding IsTrue
  IsTrue-weaken (answered (p, a)) f t = t
  IsTrue-weaken (failed not_visible) f t = f t
  IsTrue-weaken (failed unavailable) f t = t
  IsTrue-weaken (failed no_cli) f t = t
  IsTrue-weaken (failed refused) f t = t

  -- Asking an account, and going on where it saw nothing.
  or_next-IsTrue :
      (G : Type 0) (a : String) (r : Answer PullRequest) (next : Sighting)
      → ask forge watch a ≡ r
      → (Hidden forge watch a → IsTrue forge watch G next)
      → IsTrue forge watch (Hidden forge watch a × G) (or_next a r next)
  unfolding IsTrue
  or_next-IsTrue G a (answered p) next asked go = asked
  or_next-IsTrue G a (failed not_visible) next asked go =
      IsTrue-weaken next (λ g. (asked, g)) (go asked)
  or_next-IsTrue G a (failed unavailable) next asked go = (a, asked)
  or_next-IsTrue G a (failed no_cli) next asked go = (a, asked)
  or_next-IsTrue G a (failed refused) next asked go = (a, asked)

  -- The account that is passed over has been asked before.
  try_accounts-IsTrue :
      (accounts : List String)
      → Hidden forge watch watch.account
      → IsTrue forge watch (HiddenFrom forge watch accounts) (try_accounts forge watch accounts)
  unfolding try_accounts IsTrue HiddenFrom
  try_accounts-IsTrue [] tried = tt
  try_accounts-IsTrue (a ∷ accounts) tried =
      let rest = try_accounts-IsTrue accounts tried in
      elim (Bool-cases (a == watch.account)) [
        | inl same ↦
            let asked : Hidden forge watch a = rw ((eq_iff a watch.account).0 same) tried in
            rw same (IsTrue-weaken (try_accounts forge watch accounts) (λ g. (asked, g)) rest)
        | inr other ↦ rw other (
            or_next-IsTrue (HiddenFrom forge watch accounts) a (ask forge watch a)
              (try_accounts forge watch accounts) refl (λ _. rest))
      ]

  try_others-IsTrue :
      (accounts : Option (List String))
      → Hidden forge watch watch.account
      → IsTrue forge watch
          (HiddenFrom forge watch (others accounts))
          (try_others forge watch accounts)
  unfolding try_others others IsTrue HiddenFrom
  try_others-IsTrue none tried = tt
  try_others-IsTrue (some accounts) tried = elim (Bool-cases (leb (length accounts) 1)) [
    | inl one ↦ rw one tt
    | inr more ↦ rw more (try_accounts-IsTrue accounts tried)
  ]

  read_active-IsTrue :
      (Hidden forge watch "" → Hidden forge watch watch.account)
      → IsTrue forge watch
          (HiddenFrom forge watch ("" ∷ others forge.accounts))
          (read_active forge watch)
  unfolding read_active HiddenFrom
  read_active-IsTrue tried =
      or_next-IsTrue (HiddenFrom forge watch (others forge.accounts)) "" (ask forge watch "")
        (try_others forge watch forge.accounts) refl
        (λ hidden. try_others-IsTrue forge.accounts (tried hidden))

-- What `read` returns is true: an observation is the one that the account it names was answered, an
-- error other than "not found" was answered to some account, and "not found" means that the account
-- of the watch, the active one and, where there are several, every login were told so.
pub read-IsTrue :
    (forge : Forge) (watch : Watch)
    → IsTrue forge watch
        (HiddenFrom forge watch (watch.account ∷ "" ∷ others forge.accounts))
        (read forge watch)
unfolding read HiddenFrom
read-IsTrue forge watch = elim (Bool-cases (watch.account == "")) [
  | inl active ↦
      let same : watch.account ≡ "" = (eq_iff watch.account "").0 active in
      rw active (
        IsTrue-weaken forge watch (read_active forge watch) (λ g. (rw same g.0, g))
          (read_active-IsTrue forge watch (λ hidden. rw same hidden)))
  | inr named ↦ rw named (
      or_next-IsTrue forge watch (HiddenFrom forge watch ("" ∷ others forge.accounts)) watch.account
        (ask forge watch watch.account) (read_active forge watch) refl
        (λ hidden. read_active-IsTrue forge watch (λ _. hidden)))
]
