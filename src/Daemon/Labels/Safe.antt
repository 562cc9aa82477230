-- ===== src/Daemon/Labels/Safe.antt =====
-- daemon.rs: a recording's name is one plain file name.
use mathlib.Core.List.{reverse-reverse}
use dial_f.Prelude.{
  ℕ, zero, suc, ◌≤◌, ◌<◌, ◌≡◌, refl, sym, ap, ◌∙◌, Bool, true, false, Option, none, some, [], ◌∷◌,
  ◌++◌, reverse, ◌==◌, take, length, All, All-append, arith,
}
use dial_f.Prelude.Text.{Text, bytes, decimal}
use dial_f.Prelude.Text.Decimal.{IsDigit, decimal-IsDigit}
use dial_f.Daemon.Labels.{
  max_label_len, is_kept, is_edge, squeeze, trim_start, trim_matches, unless_empty, sanitize_label,
  clean_label, named, session_name,
}
use dial_f.Daemon.Labels.Trimmed.{
  IsKept, Starts, IsLabel, All-take, squeeze-All, trim_matches-All, trim_matches-Starts,
  length-trim_matches,
}

length-take : (n : ℕ) (s : Text) → length (take n s) ≤ n
length-take zero s = omega arith
length-take (suc n) [] = omega arith
length-take (suc n) (c ∷ s) = omega (arith, length-take n s)

take-id : (n : ℕ) (s : Text) → length s ≤ n → take n s ≡ s
take-id zero [] h = refl
take-id zero (c ∷ s) h = absurd (omega arith)
take-id (suc n) [] h = refl
take-id (suc n) (c ∷ s) h = ap (λ l. c ∷ l) (take-id n s (omega arith))

squeeze-id : (dash : Bool) (s : Text) → All IsKept s → squeeze dash s ≡ s
unfolding squeeze
squeeze-id dash [] a = refl
squeeze-id dash (c ∷ s) a =
    let e : is_kept c ≡ true = a.0 in rw e (ap (λ l. c ∷ l) (squeeze-id (c == 45) s a.1))

trim_start-id : (s : Text) → Starts s → trim_start s ≡ s
unfolding trim_start
trim_start-id [] h = refl
trim_start-id (c ∷ s) h = let e : is_edge c ≡ false = h in rw e refl

trim_matches-id : (s : Text) → Starts s → Starts (reverse s) → trim_matches s ≡ s
unfolding trim_matches
trim_matches-id s h k =
    ap (λ t. reverse (trim_start (reverse t))) (trim_start-id s h)
    ∙ (ap reverse (trim_start-id (reverse s) k) ∙ reverse-reverse s)

unless_empty-some : (s l : Text) → unless_empty s ≡ some l → (s ≡ l) × (0 < length l)
unfolding unless_empty
unless_empty-some [] l h = cc
unless_empty-some (c ∷ s) [] h = cc
unless_empty-some (c ∷ s) (d ∷ l) h = (cc, omega arith)

sanitize_label-IsLabel : (s l : Text) → sanitize_label s ≡ some l → IsLabel l
unfolding sanitize_label
sanitize_label-IsLabel s l h =
    let u = take max_label_len (trim_matches (squeeze false s)) in
    let e = unless_empty-some (trim_matches u) l h in
    let a = trim_matches-All u (
      All-take max_label_len (trim_matches (squeeze false s))
        (trim_matches-All (squeeze false s) (squeeze-All false s))) in
    let t = trim_matches-Starts u in
    rw (sym e.0) (
      a,
      rw e.0 e.1,
      omega (
        arith,
        length-trim_matches u,
        length-take max_label_len (trim_matches (squeeze false s)),
      ),
      t.0,
      t.1,
    )

sanitize_label-id : (l : Text) → IsLabel l → sanitize_label l ≡ some l
unfolding sanitize_label unless_empty
sanitize_label-id [] h = absurd (omega (arith, h.1))
sanitize_label-id (c ∷ l) (a, n, m, s, e) =
    let t = trim_matches-id (c ∷ l) s e in
    ap (λ u. unless_empty (trim_matches (take max_label_len (trim_matches u))))
      (squeeze-id false (c ∷ l) a)
    ∙ (ap (λ u. unless_empty (trim_matches (take max_label_len u))) t
        ∙ (ap (λ u. unless_empty (trim_matches u)) (take-id max_label_len (c ∷ l) m)
            ∙ ap unless_empty t))

digits-All : (s : Text) → All IsDigit s → All IsKept s
digits-All [] a = tt
digits-All (c ∷ s) a = (unfold is_kept in ground arith, digits-All s a.1)

prefix-All : All IsKept (bytes "dialf-job-")
unfolding bytes is_kept
prefix-All = (refl, (refl, (refl, (refl, (refl, (refl, (refl, (refl, (refl, (refl, tt))))))))))

named-All :
    (l : Option Text) (ts : ℕ) → ((t : Text) → l ≡ some t → All IsKept t) → All IsKept (named l ts)
unfolding named
named-All none ts h =
    All-append IsKept (bytes "dialf-job-") (decimal ts) prefix-All
      (digits-All (decimal ts) (decimal-IsDigit ts))
named-All (some l) ts h =
    All-append IsKept (bytes "dialf-job-") (l ++ (45 ∷ decimal ts)) prefix-All (
      All-append IsKept l (45 ∷ decimal ts) (h l refl)
        (unfold is_kept in refl, digits-All (decimal ts) (decimal-IsDigit ts)))

clean_label-All : (label : Option Text) (t : Text) → clean_label label ≡ some t → All IsKept t
unfolding clean_label
clean_label-All none t h = cc
clean_label-All (some s) t h = (sanitize_label-IsLabel s t h).0

-- What is left of a label has 1 to 40 characters of [A-Za-z0-9._-], with no dash and no dot at either
-- end, and stays as it is when it is given again. The name of a recording has only such characters,
-- whatever the label says, so that it names a file in the recording directory itself.
pub sanitize_label_lem :
    (s l : Text) (label : Option Text) (ts : ℕ)
    → sanitize_label s ≡ some l
    → IsLabel l × (sanitize_label l ≡ some l) × All IsKept (session_name label ts)
unfolding session_name
sanitize_label_lem s l label ts h =
    let i = sanitize_label-IsLabel s l h in
    (i, sanitize_label-id l i, named-All (clean_label label) ts (clean_label-All label))
