-- ===== src/ControlPlane/Listing.antt =====
-- The pages of `list_endpoint_page` and the health of `endpoint_status` of
-- src/northgate_rmm/control_plane.py.
use northgate_rmm.Prelude.{
  ℕ, ◌≡◌, ◌≢◌, refl, sym, ap, ◌∙◌, Bool-cases, true, false, Option, none, some, inl, inr, List, [],
  ◌∷◌, ◌++◌, arith, ℤ, pos, not, ◌&&◌,
}
use northgate_rmm.Prelude.Int.{pos_part, leb_ℤ}
use northgate_rmm.Prelude.Lists.{
  take, keep_if, All, AllPairs, All-map, All-zip, All-append, All-eq, AllPairs-eq,
}
use northgate_rmm.Prelude.Dict.{values}
use northgate_rmm.Prelude.Sort.{sort_by}
use northgate_rmm.Prelude.Sort.Laws.{
  keep-append, keep_everything, keep_nothing, keep-keep, All-keep, AllPairs-keep_if, take-rest,
  keep-sort, sort-ascends, sort-differs, All-sort, IsBelow, IsOther,
}
use northgate_rmm.Prelude.Result.{ok}
use northgate_rmm.Prelude.Exec.{◌>>=◌, when}
use northgate_rmm.Domain.{Uuid, Endpoint}
use northgate_rmm.ControlPlane.{ControlPlane, list_endpoint_page, is_after, id_leb}

-- Every endpoint behind the cursor, in order of the IDs.
abbrev pub remaining : Option Uuid → ControlPlane → List Endpoint
remaining after s = sort_by id_leb (keep_if (is_after after) (values s.endpoints))

-- The endpoints have different IDs.
abbrev pub HasDistinctIds : ControlPlane → Type 0
HasDistinctIds s = AllPairs (λ a b. a.endpoint_id ≢ b.endpoint_id) (values s.endpoints)

page_lem :
    (after : Option Uuid) (limit : ℤ) (s : ControlPlane) (page : List Endpoint)
    → list_endpoint_page after limit s ≡ (ok page, s)
    → page ≡ take (pos_part limit) (remaining after s)
unfolding list_endpoint_page ◌>>=◌ when
page_lem after limit s page h =
    elim (Bool-cases (not (leb_ℤ (pos 1) limit && leb_ℤ limit (pos 1000)))) [
      | inl bad ↦ let clash = ap (λ r. r.0) (rw bad at h) in absurd (cc (clash))
      | inr good ↦
          let sent : ok (take (pos_part limit) (remaining after s)) ≡ ok page =
            ap (λ r. r.0) (rw good at h) in
          cc (sent)
    ]

module _ {A : Type 0} (l : A) (rest : List A) where
  All-middle : (P : A → Type 0) (ps : List A) → All P ((ps ++ l ∷ []) ++ rest) → P l
  All-middle P [] h = h.0
  All-middle P (x ∷ ps) h = All-middle P ps h.1

  AllPairs-middle :
      (R : A → A → Type 0) (ps : List A)
      → AllPairs R ((ps ++ l ∷ []) ++ rest)
      → All (λ x. R x l) ps × All (R l) rest
  AllPairs-middle R [] h = (tt, h.0)
  AllPairs-middle R (x ∷ ps) h =
      let (before, behind) = AllPairs-middle R ps h.1 in ((All-middle (R x) ps h.0, before), behind)

abbrev id_of : Endpoint → ℕ
id_of e = e.endpoint_id

-- What stands behind the last of a page passes the test of its cursor, and the page does not.
behind_cursor :
    (zs ps rest : List Endpoint) (l : Endpoint)
    → zs ≡ (ps ++ l ∷ []) ++ rest
    → AllPairs (IsBelow id_of) zs
    → AllPairs (IsOther id_of) zs
    → keep_if (is_after (some l.endpoint_id)) zs ≡ rest
behind_cursor zs ps rest l split ascends differs =
    let (below, above) =
      AllPairs-middle l rest (IsBelow id_of) ps (AllPairs-eq _ (sym split) ascends) in
    let (_, others) =
      AllPairs-middle l rest (IsOther id_of) ps (AllPairs-eq _ (sym split) differs) in
    let q = is_after (some l.endpoint_id) in
    let self : q l ≡ false = ground arith in
    let dropped : All (λ x. q x ≡ false) (ps ++ l ∷ []) =
      All-append (λ x. q x ≡ false) ps (l ∷ []) (All-map _ _ ps (λ x le. ground arith) below)
        (self, tt) in
    let kept : All (λ x. q x ≡ true) rest =
      All-map _ _ rest (λ x (le, ne). ground arith) (All-zip _ _ rest above others) in
    ap (keep_if q) split
    ∙ keep-append q (ps ++ l ∷ []) rest
    ∙ ap (λ xs. xs ++ keep_if q rest) (keep_nothing q (ps ++ l ∷ []) dropped)
    ∙ keep_everything q rest kept

later :
    (after : Option Uuid) (l x : Endpoint)
    → is_after after l ≡ true
    → is_after (some l.endpoint_id) x ≡ true
    → is_after after x ≡ true
later none l x h k = refl
later (some c) l x h k = ground arith

pub list_endpoint_page-remaining :
    (after : Option Uuid) (limit : ℤ) (s : ControlPlane) (ps : List Endpoint) (l : Endpoint)
    → HasDistinctIds s
    → list_endpoint_page after limit s ≡ (ok (ps ++ l ∷ []), s)
    → remaining after s ≡ (ps ++ l ∷ []) ++ remaining (some l.endpoint_id) s
list_endpoint_page-remaining after limit s ps l distinct h =
    let vs = values s.endpoints in
    let p = is_after after in
    let q = is_after (some l.endpoint_id) in
    let zs = remaining after s in
    let (rest, front) = take-rest (pos_part limit) zs in
    let split : zs ≡ (ps ++ l ∷ []) ++ rest =
      front ∙ ap (λ xs. xs ++ rest) (sym (page_lem after limit s _ h)) in
    let differs =
      sort-differs id_of (keep_if p vs) (AllPairs-keep_if (IsOther id_of) p vs distinct) in
    let behind = behind_cursor zs ps rest l split (sort-ascends id_of (keep_if p vs)) differs in
    let passes = All-sort id_of (λ x. p x ≡ true) (keep_if p vs) (All-keep p vs) in
    let l_passes =
      All-middle l rest (λ x. p x ≡ true) ps (All-eq (λ x. p x ≡ true) (sym split) passes) in
    let same : rest ≡ remaining (some l.endpoint_id) s =
      sym behind
      ∙ keep-sort id_of q (keep_if p vs)
      ∙ ap (sort_by id_leb) (keep-keep p q (λ x k. later after l x l_passes k) vs) in
    split ∙ ap (λ xs. (ps ++ l ∷ []) ++ xs) same
