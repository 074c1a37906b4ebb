-- ===== src/Peer/Connected/Nominated.antt =====
-- A report with one nominated pair gives its addresses, in whatever order it is ranged over.
use web_rtcsfu.Base.{
  ◌≡◌, refl, ap, sym, true, none, some, List, [], ◌∷◌, ◌&&◌, ◌==◌, ◌⊎◌, inl, inr, All, Bool-cases,
  bytes_eq, beq_refl,
}
use web_rtcsfu.Base.Bytes.{Bytes}
use web_rtcsfu.Base.Map.{lookup, lookup-insert}
use web_rtcsfu.Peer.Connected.{
  Stats, candidate, pair, other, Selected, select_one, select_all, addresses, on_connected,
}

abbrev pub Has : Stats → List Stats → Type 0
Has x [] = ⊥
Has x (y ∷ ys) = (y ≡ x) ⊎ Has x ys

-- A candidate of this ID has this address.
abbrev pub Located : Bytes → Bytes → Stats → Type 0
Located id ip (candidate other_id other_ip) = id ≡ other_id → other_ip ≡ ip
Located id ip (pair nominated succeeded local_id remote_id) = Unit {0}
Located id ip other = Unit {0}

-- A pair that is nominated and has succeeded has these candidates.
abbrev pub Nominates : Bytes → Bytes → Stats → Type 0
Nominates l r (candidate id ip) = Unit {0}
Nominates l r (pair nominated succeeded local_id remote_id) =
    (nominated && succeeded) ≡ true → (local_id ≡ l) × (remote_id ≡ r)
Nominates l r other = Unit {0}

module _ (id ip : Bytes) where
  Located-one :
      (x : Stats) (sel : Selected)
      → Located id ip x
      → lookup id sel.candidate_details ≡ some ip
      → lookup id (select_one x sel).candidate_details ≡ some ip
  unfolding select_one
  Located-one (candidate other_id other_ip) sel h e = elim (Bool-cases (other_id == id)) [
    | inl same ↦
        rw (lookup-insert other_id id other_ip sel.candidate_details, same)
          (ap some (h (sym ((bytes_eq.beq_iff other_id id).0 same))))
    | inr differs ↦ rw (lookup-insert other_id id other_ip sel.candidate_details, differs) e
  ]
  Located-one (pair nominated succeeded local_id remote_id) sel h e =
      elim (Bool-cases (nominated && succeeded)) [
        | inl chosen ↦ rw (chosen, select_one) e
        | inr passed ↦ rw (passed, select_one) e
      ]
  Located-one other sel h e = e

  Located-kept :
      (xs : List Stats) (sel : Selected)
      → All (Located id ip) xs
      → lookup id sel.candidate_details ≡ some ip
      → lookup id (select_all xs sel).candidate_details ≡ some ip
  unfolding select_all
  Located-kept [] sel h e = e
  Located-kept (x ∷ xs) sel (h, hs) e =
      Located-kept xs (select_one x sel) hs (Located-one x sel h e)

  located :
      (xs : List Stats) (sel : Selected)
      → All (Located id ip) xs
      → Has (candidate id ip) xs
      → lookup id (select_all xs sel).candidate_details ≡ some ip
  unfolding select_all
  located [] sel h has = absurd has
  located (x ∷ xs) sel (h, hs) (inl here) = Located-kept xs (select_one x sel) hs (
      rw here
        (unfold select_one in rw (lookup-insert id id ip sel.candidate_details, beq_refl id) refl))
  located (x ∷ xs) sel (h, hs) (inr later) = located xs (select_one x sel) hs later

module _ (l r : Bytes) where
  abbrev IsChosen : Selected → Type 0
  IsChosen sel = (sel.local_candidate_id ≡ some l) × (sel.remote_candidate_id ≡ some r)

  IsChosen-one :
      (x : Stats) (sel : Selected) → Nominates l r x → IsChosen sel → IsChosen (select_one x sel)
  unfolding select_one
  IsChosen-one (candidate id ip) sel h e = e
  IsChosen-one (pair nominated succeeded local_id remote_id) sel h e =
      elim (Bool-cases (nominated && succeeded)) [
        | inl chosen ↦ rw (chosen, select_one) (ap some (h chosen).0, ap some (h chosen).1)
        | inr passed ↦ rw (passed, select_one) e
      ]
  IsChosen-one other sel h e = e

  IsChosen-kept :
      (xs : List Stats) (sel : Selected)
      → All (Nominates l r) xs
      → IsChosen sel
      → IsChosen (select_all xs sel)
  unfolding select_all
  IsChosen-kept [] sel h e = e
  IsChosen-kept (x ∷ xs) sel (h, hs) e =
      IsChosen-kept xs (select_one x sel) hs (IsChosen-one x sel h e)

  chosen :
      (xs : List Stats) (sel : Selected)
      → All (Nominates l r) xs
      → Has (pair true true l r) xs
      → IsChosen (select_all xs sel)
  unfolding select_all
  chosen [] sel h has = absurd has
  chosen (x ∷ xs) sel (h, hs) (inl here) =
      IsChosen-kept xs (select_one x sel) hs (rw here (unfold select_one in (refl, refl)))
  chosen (x ∷ xs) sel (h, hs) (inr later) = chosen xs (select_one x sel) hs later

-- What the report must hold: one pair, and one address for each of its candidates.
pub record Reports (l r local_ip remote_ip : Bytes) (report : List Stats) : Type 0 where
  pub nominated : Has (pair true true l r) report
  pub only : All (Nominates l r) report
  pub here : Has (candidate l local_ip) report
  pub here_only : All (Located l local_ip) report
  pub there : Has (candidate r remote_ip) report
  pub there_only : All (Located r remote_ip) report

-- Take a report with a pair that is nominated and has succeeded and in which every such pair has
-- the same two candidates, l and r, with an entry for each of these, and one address only for
-- each. Then, in whatever order the report is ranged over, the callback does not panic and finds
-- the address of l as its own and that of r as the other side's.
pub on_connected-addresses :
    (l r local_ip remote_ip : Bytes) (report : List Stats)
    → Reports l r local_ip remote_ip report
    → on_connected report ≡ some (local_ip, remote_ip)
unfolding on_connected addresses
on_connected-addresses l r local_ip remote_ip report h =
    let start : Selected = record {
      candidate_details = [];
      local_candidate_id = none;
      remote_candidate_id = none;
    } in
    let (first, second) = chosen l r report start h.only h.nominated in
    rw
      (
        first,
        located l local_ip report start h.here_only h.here,
        second,
        located r remote_ip report start h.there_only h.there,
      )
      refl
