-- ===== src/Daemon/Quiet.antt =====
-- internal/daemon/reload.go: `watchConfiguration` reloads what it has read three times running.
use lac.Base.{
  ℕ, suc, ◌≤◌, Bool, true, false, List, [], ◌∷◌, ◌≡◌, refl, arith, Bool-cases, inl, inr,
  if◌then◌else◌,
}
use lac.Store.Credentials.{same_bytes}
use lac.Daemon.Settling.{
  Fingerprint, Reading, blank, same_fingerprint, settled, tick, watched, start, stable_checks,
}

-- How often the last readings running gave the fingerprint, the newest first.
unfoldable pub running : Fingerprint → List Reading → ℕ
running f [] = 0
running f (r ∷ before) =
    let rest = running f before in if same_fingerprint r.current f then suc rest else 0

same_bytes_refl : (a : List ℕ) → same_bytes a a ≡ true
unfolding same_bytes
same_bytes_refl [] = refl
same_bytes_refl (x ∷ xs) = ground (arith, same_bytes_refl xs)

same_bytes_lem : (a b : List ℕ) → same_bytes a b ≡ true → a ≡ b
unfolding same_bytes
same_bytes_lem [] [] h = refl
same_bytes_lem [] (y ∷ ys) h = absurd (ground arith)
same_bytes_lem (x ∷ xs) [] h = absurd (ground arith)
same_bytes_lem (x ∷ xs) (y ∷ ys) h =
    let rest = same_bytes_lem xs ys (ground arith) in
    let here : x ≡ y = ground arith in ground arith

same_fingerprint_refl : (a : Fingerprint) → same_fingerprint a a ≡ true
unfolding same_fingerprint
same_fingerprint_refl a = elim (Bool-cases a.missing) [
  | inl gone ↦ rw gone (same_bytes_refl a.digest)
  | inr there ↦ rw there (same_bytes_refl a.digest)
]

same_fingerprint_lem : (a b : Fingerprint) → same_fingerprint a b ≡ true → a ≡ b
unfolding same_fingerprint
same_fingerprint_lem a b h =
    let digest = same_bytes_lem a.digest b.digest (ground arith) in
    let missing : a.missing ≡ b.missing = ground arith in ground arith

-- A file counts as quiet no longer than it was.
counted_lem :
    (loaded : Fingerprint) (rs : List Reading)
    → (watched loaded rs).quiet_reads ≤ running (watched loaded rs).candidate rs
unfolding watched start running tick settled
counted_lem loaded [] = omega arith
counted_lem loaded (r ∷ before) =
    let w = watched loaded before in
    let ih = counted_lem loaded before in ground (arith, same_fingerprint_refl r.current)

-- A candidate stands only while it is counted.
blank_lem :
    (loaded : Fingerprint) (rs : List Reading)
    → (watched loaded rs).quiet_reads ≡ 0
    → (watched loaded rs).candidate ≡ blank
unfolding watched start tick settled
blank_lem loaded [] h = refl
blank_lem loaded (r ∷ before) h = ground (arith, blank_lem loaded before)

-- The loop calls `Reload` only when the last three readings running, this one among them, were the
-- same, and are not what is loaded.
pub only_a_settled_file_is_reloaded :
    (loaded : Fingerprint) (before : List Reading) (r : Reading)
    → (tick r (watched loaded before)).0 ≡ true
    → (stable_checks ≤ running r.current (r ∷ before))
      × (same_fingerprint r.current (watched loaded before).loaded ≡ false)
unfolding tick running
only_a_settled_file_is_reloaded loaded before r h =
    let w = watched loaded before in
    let counted = counted_lem loaded before in
    elim (Bool-cases (same_fingerprint r.current w.candidate)) [
      | inl e ↦
          let same : r.current ≡ w.candidate = same_fingerprint_lem r.current w.candidate e in
          let long : w.quiet_reads ≤ running r.current before = rw same counted in
          (ground (arith, same_fingerprint_refl r.current), ground arith)
      | inr e ↦ absurd (ground arith)
    ]

-- Three readings running of a file that is not what is loaded are enough: one of them reloads it. The
-- fingerprint is not the zero value.
pub settled_file_is_reloaded :
    (loaded f : Fingerprint) (before : List Reading) (a b c : Bool)
    → same_fingerprint f (watched loaded before).loaded ≡ false
    → same_fingerprint f blank ≡ false
    → ((tick (record { current = f; succeeds = a }) (watched loaded before)).0 ≡ false)
    → ((tick
          (record { current = f; succeeds = b })
          (tick (record { current = f; succeeds = a }) (watched loaded before)).1).0
        ≡ false)
    → (tick
        (record { current = f; succeeds = c })
        (tick
          (record { current = f; succeeds = b })
          (tick (record { current = f; succeeds = a }) (watched loaded before)).1).1).0
      ≡ true
unfolding tick
settled_file_is_reloaded loaded f before a b c changed real first second =
    let w = watched loaded before in
    let counted = blank_lem loaded before in ground (arith, same_fingerprint_refl f, counted)
