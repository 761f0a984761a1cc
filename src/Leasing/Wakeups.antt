-- ===== src/Leasing/Wakeups.antt =====
-- No wakeup is lost: a channel that was taken before looking is closed by any later signal.
use lac.Base.{
  ℕ, String, ◌==◌, Bool, true, false, not, ◌&&◌, some, List, [], ◌∷◌, ◌++◌, ◌≡◌, refl, map, ◌⊎◌,
  inl, inr, arith, leb, find, select, exists, eq_iff, eq_refl, Bool-cases, Option-cases,
}
use lac.Leasing.Waiters.{Waiters, Channel, watch, signal, signal_all}

-- What others do to the waiters while an agent looks or sleeps.
pub data Change : Type 0 where
  watches signals : String → Change
  signals_everyone : Change

unfoldable pub change : Change → Waiters → Waiters
change (watches r) w = (watch r w).1
change (signals r) w = signal r w
change signals_everyone w = signal_all w

unfoldable pub changes : List Change → Waiters → Waiters
unfolding change
changes [] w = w
changes (c ∷ cs) w = changes cs (change c w)

-- The changes that wake the waiters of a resource.
abbrev pub wakes : String → Change → Bool
wakes resource (watches r) = false
wakes resource (signals r) = r == resource
wakes resource signals_everyone = true

abbrev pub same_number : ℕ → ℕ → Bool
same_number a b = leb a b && leb b a

unfoldable pub is_closed : ℕ → Waiters → Bool
is_closed c w = exists (same_number c) w.closed

-- The channel is open under its resource, or closed already.
Awaits : String → ℕ → Waiters → Type 0
Awaits r c w =
    ((ch : Channel) × (find (λ d. d.resource == r) w.channels ≡ some ch) × (ch.number ≡ c))
    ⊎ (is_closed c w ≡ true)

watch-Awaits : (r : String) (w : Waiters) → Awaits r (watch r w).0 (watch r w).1
unfolding watch Awaits find
watch-Awaits r w = elim (Option-cases (find (λ d. d.resource == r) w.channels)) [
  | inl fresh ↦
      rw (fresh, watch)
        (inl (record { resource = r; number = w.made }, ground (arith, eq_refl r), refl))
  | inr (ch, found) ↦ rw (found, watch) (inl (ch, found, refl))
]

closed-append :
    (c : ℕ) (more old : List ℕ)
    → exists (same_number c) old ≡ true
    → exists (same_number c) (more ++ old) ≡ true
unfolding exists
closed-append c [] old h = h
closed-append c (x ∷ more) old h = ground (arith, closed-append c more old h)

-- A closed channel stays closed.
change-is_closed :
    (c : ℕ) (ch : Change) (w : Waiters) → is_closed c w ≡ true → is_closed c (change ch w) ≡ true
unfolding is_closed change watch signal signal_all exists
change-is_closed c (watches r) w h = ground arith
change-is_closed c (signals r) w h = ground arith
change-is_closed c signals_everyone w h =
    closed-append c (map (λ d. d.number) w.channels) w.closed h

find-select :
    (r k : String) (chs : List Channel) (ch : Channel)
    → find (λ d. d.resource == k) chs ≡ some ch
    → (r == k) ≡ false
    → find (λ d. d.resource == k) (select (λ d. not (d.resource == r)) chs) ≡ some ch
unfolding find select
find-select r k [] ch e h = absurd (ground arith)
find-select r k (d ∷ chs) ch e h =
    ground (arith, eq_iff d.resource r, eq_iff d.resource k, eq_iff r k, find-select r k chs ch)

find-closed :
    (k : String) (chs : List Channel) (ch : Channel) (old : List ℕ)
    → find (λ d. d.resource == k) chs ≡ some ch
    → exists (same_number ch.number) (map (λ d. d.number) chs ++ old) ≡ true
unfolding find exists
find-closed k [] ch old e = absurd (ground arith)
find-closed k (d ∷ chs) ch old e = ground (arith, find-closed k chs ch old)

signal-closes :
    (r : String) (c : ℕ) (k : String) (w : Waiters)
    → (k == r) ≡ true
    → (d : Channel) → find (λ d'. d'.resource == r) w.channels ≡ some d
    → d.number ≡ c
    → is_closed c (change (signals k) w) ≡ true
unfolding change signal is_closed exists
signal-closes r c k w same d found e = rw ((eq_iff k r).0 same) (ground arith)

find-watch :
    (r k : String) (w : Waiters) (d : Channel)
    → find (λ d'. d'.resource == r) w.channels ≡ some d
    → find (λ d'. d'.resource == r) (watch k w).1.channels ≡ some d
unfolding watch find
find-watch r k w d found = elim (Bool-cases (k == r)) [
  | inl same ↦ rw ((eq_iff k r).0 same) (ground arith)
  | inr other ↦ ground arith
]

find-signal :
    (r k : String) (w : Waiters) (d : Channel)
    → (k == r) ≡ false
    → find (λ d'. d'.resource == r) w.channels ≡ some d
    → find (λ d'. d'.resource == r) (signal k w).channels ≡ some d
unfolding signal
find-signal r k w d other found = ground (arith, find-select k r w.channels d found other)

-- Any change keeps a channel awaited, and one that wakes the resource closes it.
change-Awaits :
    (r : String) (c : ℕ) (ch : Change) (w : Waiters) → Awaits r c w → Awaits r c (change ch w)
unfolding Awaits
change-Awaits r c ch w (inr closed) = inr (change-is_closed c ch w closed)
change-Awaits r c (watches k) w (inl (d, found, e)) =
    inl (d, unfold change in find-watch r k w d found, e)
change-Awaits r c (signals k) w (inl (d, found, e)) = elim (Bool-cases (k == r)) [
  | inl same ↦ inr (signal-closes r c k w same d found e)
  | inr other ↦ inl (d, unfold change in find-signal r k w d other found, e)
]
change-Awaits r c signals_everyone w (inl (d, found, e)) =
    inr (unfold change signal_all is_closed in rw (← e) (find-closed r w.channels d w.closed found))

change-closes :
    (r : String) (c : ℕ) (ch : Change) (w : Waiters)
    → wakes r ch ≡ true
    → Awaits r c w
    → is_closed c (change ch w) ≡ true
unfolding Awaits
change-closes r c ch w h (inr closed) = change-is_closed c ch w closed
change-closes r c (watches k) w h (inl (d, found, e)) = cc
change-closes r c (signals k) w h (inl (d, found, e)) = signal-closes r c k w h d found e
change-closes r c signals_everyone w h (inl (d, found, e)) =
    unfold change signal_all is_closed in rw (← e) (find-closed r w.channels d w.closed found)

changes-is_closed :
    (c : ℕ) (cs : List Change) (w : Waiters)
    → is_closed c w ≡ true
    → is_closed c (changes cs w) ≡ true
unfolding changes
changes-is_closed c [] w h = h
changes-is_closed c (ch ∷ cs) w h = changes-is_closed c cs (change ch w) (change-is_closed c ch w h)

changes-Awaits :
    (r : String) (c : ℕ) (cs : List Change) (w : Waiters)
    → exists (wakes r) cs ≡ true
    → Awaits r c w
    → is_closed c (changes cs w) ≡ true
unfolding changes exists
changes-Awaits r c [] w e a = absurd (ground arith)
changes-Awaits r c (ch ∷ cs) w e a = elim (Bool-cases (wakes r ch)) [
  | inl woken ↦ changes-is_closed c cs (change ch w) (change-closes r c ch w woken a)
  | inr other ↦ changes-Awaits r c cs (change ch w) (ground arith) (change-Awaits r c ch w a)
]

-- An agent takes its channel and then looks at the resource: whatever others do to the waiters from
-- then on, before, between and after, a signal of that resource, or of all, leaves the channel closed,
-- so the agent does not sleep through it.
pub no_lost_wakeup :
    (resource : String) (w : Waiters) (cs : List Change)
    → exists (wakes resource) cs ≡ true
    → let (channel, w') = watch resource w in is_closed channel (changes cs w') ≡ true
no_lost_wakeup resource w cs e =
    changes-Awaits resource (watch resource w).0 cs (watch resource w).1 e (watch-Awaits resource w)
