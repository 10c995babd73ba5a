-- ===== src/Diff/Parse/Paths.antt =====
-- The paths of a patch: their grammar, and which are recorded.
use omarchy_premonition.Base.{
  true, false, not, List, [], ◌∷◌, ◌++◌, ◌≢◌, ◌≡◌, ap, arith, Text, text, text_eq, strip_prefix,
  strip_suffix, split, any, All, All-append, reject, ok_or, bind-eq-ok, ok,
}
use omarchy_premonition.Diff.Error.{DiffError}
use omarchy_premonition.Diff.SafePath.{SafePath}
use omarchy_premonition.Diff.SafePath
use omarchy_premonition.Diff.SafePath.Grammar.{parse_iff, IsPathText}
use omarchy_premonition.Diff.Headers.{diff_fields, parse_diff_header}
use omarchy_premonition.Diff.Parse.{FileChange}

-- No two sections name the same path.
abbrev pub DistinctPaths : List FileChange → Type 0
DistinctPaths [] = Unit
DistinctPaths (f ∷ fs) = All (λ g. f.path ≢ g.path) fs × DistinctPaths fs

pub DistinctPaths-append :
    (fs : List FileChange) (f : FileChange)
    → DistinctPaths fs
    → All (λ g. g.path ≢ f.path) fs
    → DistinctPaths (fs ++ f ∷ [])
DistinctPaths-append [] f d h = (tt, tt)
DistinctPaths-append (g ∷ fs) f d h =
    (All-append (λ k. g.path ≢ k.path) fs (f ∷ []) d.0 (h.0, tt), DistinctPaths-append fs f d.1 h.1)

-- The loop has recorded the path of each file.
abbrev pub Recorded : List SafePath → List FileChange → Type 0
Recorded seen [] = Unit
Recorded seen (f ∷ fs) = (any (SafePath.eq f.path) seen ≡ true) × Recorded seen fs

pub Recorded-cons :
    (path : SafePath) (seen : List SafePath) (fs : List FileChange)
    → Recorded seen fs
    → Recorded (path ∷ seen) fs
unfolding any
Recorded-cons path seen [] r = tt
Recorded-cons path seen (f ∷ fs) r = (ground arith, Recorded-cons path seen fs r.1)

pub Recorded-append :
    (seen : List SafePath) (fs : List FileChange) (f : FileChange)
    → Recorded seen fs
    → any (SafePath.eq f.path) seen ≡ true
    → Recorded seen (fs ++ f ∷ [])
Recorded-append seen [] f r h = (h, tt)
Recorded-append seen (g ∷ fs) f r h = (r.0, Recorded-append seen fs f r.1 h)

pub Recorded-fresh :
    (path : SafePath) (seen : List SafePath) (fs : List FileChange)
    → Recorded seen fs
    → any (SafePath.eq path) seen ≡ false
    → All (λ g. g.path ≢ path) fs
Recorded-fresh path seen [] r h = tt
Recorded-fresh path seen (f ∷ fs) r h =
    (λ e. cc (ap (λ (q : SafePath). any (SafePath.eq q) seen) e), Recorded-fresh path seen fs r.1 h)

pub parse_diff_header-IsPathText :
    (line : Text) (path : SafePath) → parse_diff_header line ≡ ok path → IsPathText path.as_str
unfolding parse_diff_header
parse_diff_header-IsPathText line path h =
    let (header, e0, h0) = bind-eq-ok (ok_or (strip_suffix b'\n' line) DiffError.malformed) _ h in
    let (fields, e1, h1) = bind-eq-ok (diff_fields (split b' ' header)) _ h0 in
    let (old, e2, h2) =
      bind-eq-ok (ok_or (strip_prefix (text "a/") fields.0) DiffError.unsafe_path) _ h1 in
    let (new, e3, h3) =
      bind-eq-ok (ok_or (strip_prefix (text "b/") fields.1) DiffError.unsafe_path) _ h2 in
    let (u, e4, h4) = bind-eq-ok (reject (not (text_eq old new)) DiffError.header_mismatch) _ h3 in
    let (same, grammar) = (parse_iff old path).0 h4 in rw same grammar
