-- ===== src/Audio/Record/Blamed.antt =====
-- audio/record.rs on a disk that may fail: a step leaves what it should, or fails as the disk did.
use dial_f.Prelude.{◌≡◌, refl, ap, ◌∙◌, Option, none, some}
use dial_f.Prelude.Outcome.{Result, ok, err, ◌>>=◌}
use dial_f.Prelude.Text.{Text}
use dial_f.Audio.Record.{
  Disk, Deed, RecordError, io_failed, with_context, different_rates, mislabeled, unfinished_frame,
  out_of_rounds, Step, and_then, left_by, attempt, context,
}

-- No use of the disk fails.
abbrev pub IsSound : Disk → Type 0
IsSound disk = (d : Deed) (path : Text) → disk.fault d path ≡ none

-- The error is what a use of the disk failed with, under the contexts that the code adds.
abbrev pub Blames : Disk → RecordError → Type 0
Blames disk (io_failed t) = (d : Deed) × (path : Text) × (disk.fault d path ≡ some t)
Blames disk (with_context what e) = Blames disk e
Blames disk (different_rates tx rx) = ⊥
Blames disk (mislabeled sink capture) = ⊥
Blames disk unfinished_frame = ⊥
Blames disk out_of_rounds = ⊥

-- A result is the value, or an error of the disk.
pub data Yields {A : Type 0} (disk : Disk) (a : A) : Result RecordError A → Type 0 where
  yields : (b : A) → b ≡ a → Yields disk a (ok b)
  blames : (e : RecordError) → Blames disk e → Yields disk a (err e)

-- A step leaves the state, or fails with an error of the disk.
pub data Leaves {S : Type 0} (disk : Disk) (s : S) : Step S → Type 0 where
  leaves : (t : S) → t ≡ s → Leaves disk s (ok tt, t)
  fails : (e : RecordError) (t : S) → Blames disk e → Leaves disk s (err e, t)

-- A step ends in a state with a property, or fails with an error that may be.
pub data Ends {S : Type 0} (F : RecordError → Type 0) (P : S → Type 0) : Step S → Type 0 where
  ends : (t : S) → P t → Ends F P (ok tt, t)
  stops : (e : RecordError) (t : S) → F e → Ends F P (err e, t)

-- The same of a result.
pub data Gives {A : Type 0} (F : RecordError → Type 0) (P : A → Type 0)
    : Result RecordError A → Type 0 where
  gives : (a : A) → P a → Gives F P (ok a)
  refuses : (e : RecordError) → F e → Gives F P (err e)

pub left_by-Gives :
    {S : Type 0} (F : RecordError → Type 0) (P : S → Type 0) {st : Step S}
    → Ends F P st
    → Gives F P (left_by st)
unfolding left_by
left_by-Gives F P (ends t h) = gives t h
left_by-Gives F P (stops e t b) = refuses e b

pub and_then-Ends :
    {S : Type 0} (F : RecordError → Type 0) (P Q : S → Type 0) {st : Step S} (f : S → Step S)
    → Ends F P st
    → ((t : S) → P t → Ends F Q (f t))
    → Ends F Q (and_then st f)
unfolding and_then
and_then-Ends F P Q f (ends t h) k = k t h
and_then-Ends F P Q f (stops e t h) k = stops e t h

module _ (disk : Disk) where
  pub >>=-Yields :
      {A B : Type 0} {r : Result RecordError A} (f : A → Result RecordError B) (a : A) (b : B)
      → Yields disk a r
      → Yields disk b (f a)
      → Yields disk b (r >>= f)
  >>=-Yields f a b (yields c h) k = rw h k
  >>=-Yields f a b (blames e h) k = blames e h

  module _ {A : Type 0} where
    pub context-Yields :
        (what : Text) {r : Result RecordError A} {a : A}
        → Yields disk a r
        → Yields disk a (context what r)
    context-Yields what (yields b h) = yields b h
    context-Yields what (blames e h) = blames (with_context what e) h

    pub left_by-Yields : {st : Step A} {a : A} → Leaves disk a st → Yields disk a (left_by st)
    unfolding left_by
    left_by-Yields (leaves t h) = yields t h
    left_by-Yields (fails e t h) = blames e h

    pub Leaves-eq : {st : Step A} {a b : A} → a ≡ b → Leaves disk a st → Leaves disk b st
    Leaves-eq e (leaves t h) = leaves t (h ∙ e)
    Leaves-eq e (fails x t h) = fails x t h

    pub and_then-Leaves :
        {st : Step A} (f : A → Step A) (a b : A)
        → Leaves disk a st
        → Leaves disk b (f a)
        → Leaves disk b (and_then st f)
    unfolding and_then
    and_then-Leaves f a b (leaves t h) k = rw h k
    and_then-Leaves f a b (fails e t h) k = fails e t h

  attempt-when :
      (d : Deed) (path : Text) (o : Option Text)
      → disk.fault d path ≡ o
      → Yields disk tt (attempt o)
  unfolding attempt
  attempt-when d path none h = yields tt refl
  attempt-when d path (some t) h = blames (io_failed t) (d, path, h)

  pub attempt-Yields : (d : Deed) (path : Text) → Yields disk tt (attempt (disk.fault d path))
  attempt-Yields d path = attempt-when d path (disk.fault d path) refl

  -- There is nothing to blame a disk for that does not fail.
  sound-Blames : IsSound disk → (e : RecordError) → ¬ Blames disk e
  sound-Blames sound (io_failed t) (d, path, h) = cc (sound d path, h)
  sound-Blames sound (with_context what e) h = sound-Blames sound e h
  sound-Blames sound (different_rates tx rx) h = h
  sound-Blames sound (mislabeled sink capture) h = h
  sound-Blames sound unfinished_frame h = h
  sound-Blames sound out_of_rounds h = h

  pub sound-Yields :
      {A : Type 0} {r : Result RecordError A} {a : A} → IsSound disk → Yields disk a r → r ≡ ok a
  sound-Yields sound (yields b h) = ap ok h
  sound-Yields sound (blames e h) = absurd (sound-Blames sound e h)
