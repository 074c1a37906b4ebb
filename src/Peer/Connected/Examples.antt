-- ===== src/Peer/Connected/Examples.antt =====
-- A report with the pair before its candidates, and a pair that was not nominated.
use web_rtcsfu.Base.{◌≡◌, refl, ap, length, true, false, some, List, [], ◌∷◌, inl, inr, arith}
use web_rtcsfu.Base.Bytes.{codes}
use web_rtcsfu.Peer.Connected.{Stats, candidate, pair, other, on_connected}
use web_rtcsfu.Peer.Connected.Nominated.{Reports, on_connected-addresses}

abbrev report : List Stats
report =
    pair true true (codes "L") (codes "RR")
    ∷ candidate (codes "RR") (codes "10.0.0.2")
    ∷ pair false true (codes "X") (codes "RR")
    ∷ other
    ∷ candidate (codes "L") (codes "10.0.0.1")
    ∷ []

reports : Reports (codes "L") (codes "RR") (codes "10.0.0.1") (codes "10.0.0.2") report
reports = record {
  nominated = inl refl;
  only = ((λ e. (refl, refl)), (tt, ((λ e. absurd (cc e)), (tt, (tt, tt)))));
  here = inr (inr (inr (inr (inl refl))));
  here_only = (tt, ((λ e. absurd (omega (arith, ap length e))), (tt, (tt, ((λ e. refl), tt)))));
  there = inr (inl refl);
  there_only = (tt, ((λ e. refl), (tt, (tt, ((λ e. absurd (omega (arith, ap length e))), tt)))));
}

on_connected-addresses_example : on_connected report ≡ some (codes "10.0.0.1", codes "10.0.0.2")
on_connected-addresses_example =
    on_connected-addresses (codes "L") (codes "RR") (codes "10.0.0.1") (codes "10.0.0.2") report
      reports
