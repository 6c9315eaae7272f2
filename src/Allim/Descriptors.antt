-- ===== src/Allim/Descriptors.antt =====
-- src/allim/lib/allib.c: the loops of `allimDesc`.
use natc.Base.{
  ℕ, zero, suc, ◌+◌, ◌-◌, ◌<◌, ◌≡◌, refl, ap, sym, ◌∙◌, inl, inr, true, false, arith, Bool-cases,
  ltb→lt, lt→ltb,
}
use mathlib.Core.Bool.{false≢true}
use natc.Base.Int.{
  ℤ, pos, pos_part, neg_part, ◌+ℤ◌, ◌-ℤ◌, ◌≤ℤ◌, ltb_ℤ, gap, +ℤ_parts, -ℤ_parts, eq_of_parts,
}
use natc.Allim.State.{is_success, World}
use natc.Allim.Shared.{Reply}
use natc.Allim.Limits.{Ended, ended, fault}
use natc.Allim.Sockets.{desc_max, Openings, Count, open_loop, close_loop, in_array, desc_body}

-- How opening ends: in order, between the start and the target, with one more socket for each number
-- counted, and at the target where every socket could be opened.
pub record Opened (opens : Openings) (socks : ℕ) (current dest : ℤ) (r : Count) : Type 0 where
  pub how : r.how ≡ ended
  pub above : current ≤ℤ r.current
  pub below : r.current ≤ℤ dest
  pub opened :
      pos_part r.current + neg_part current + socks
      ≡ pos_part current + neg_part r.current + r.socks
  pub reaches : ((n : ℕ) → is_success (opens n) ≡ true) → r.current ≡ dest

open_loop-Opened :
    (opens : Openings) (fuel n socks : ℕ) (current dest : ℤ)
    → gap dest current < fuel
    → current ≤ℤ dest
    → pos 0 ≤ℤ current
    → dest ≤ℤ desc_max
    → Opened opens socks current dest (open_loop opens fuel n socks current dest)
unfolding open_loop
open_loop-Opened opens zero n socks current dest enough le lo hi = absurd (omega arith)
open_loop-Opened opens (suc fuel) n socks current dest enough le lo hi =
    elim (Bool-cases (ltb_ℤ current dest)) [
      | inr there ↦ rw there (record {
        how = refl;
        above = omega arith;
        below = le;
        opened = omega arith;
        reaches = λ all. eq_of_parts current dest (ground arith);
      })
      | inl goes ↦
          let inside : in_array current ≡ true = let lt = ltb→lt _ _ goes in ground arith in
          elim (Bool-cases (is_success (opens n))) [
            | inr refused ↦
                rw (goes, inside, refused)
                  (record {
                    how = refl;
                    above = omega arith;
                    below = le;
                    opened = omega arith;
                    reaches = λ all. absurd (false≢true (sym refused ∙ all n));
                  })
            | inl met ↦
                let step = +ℤ_parts current (pos 1) in
                let lt = ltb→lt _ _ goes in
                let k =
                  open_loop-Opened opens fuel (n + 1) (socks + 1) (current +ℤ pos 1) dest
                    (omega arith) (omega arith) (omega arith) hi in
                rw (goes, inside, met)
                  (record {
                    how = k.how;
                    above = omega (arith, k.above);
                    below = k.below;
                    opened = omega (arith, k.opened);
                    reaches = k.reaches;
                  })
          ]
    ]

-- Closing ends at the target, with one socket less for each number counted.
pub record Closed (socks : ℕ) (current dest : ℤ) (r : Count) : Type 0 where
  pub how : r.how ≡ ended
  pub there : r.current ≡ dest
  pub closed : r.socks ≡ socks - gap current dest

close_loop-Closed :
    (fuel socks : ℕ) (current dest : ℤ)
    → gap current dest < fuel
    → dest ≤ℤ current
    → pos 0 ≤ℤ dest
    → current ≤ℤ desc_max
    → Closed socks current dest (close_loop fuel socks current dest)
unfolding close_loop
close_loop-Closed zero socks current dest enough le lo hi = absurd (omega arith)
close_loop-Closed (suc fuel) socks current dest enough le lo hi =
    elim (Bool-cases (ltb_ℤ dest current)) [
      | inr there ↦ rw there (record {
        how = refl;
        there = eq_of_parts current dest (ground arith);
        closed = ground arith;
      })
      | inl goes ↦
          let step = -ℤ_parts current (pos 1) in
          let lt = ltb→lt _ _ goes in
          let inside : in_array (current -ℤ pos 1) ≡ true = ground arith in
          let k =
            close_loop-Closed fuel (socks - 1) (current -ℤ pos 1) dest (omega arith) (omega arith)
              lo (omega arith) in
          rw (goes, inside)
            (record { how = k.how; there = k.there; closed = k.closed ∙ omega arith })
    ]

-- How the work of `allimDesc` ends, where the process has `socks` sockets open for the count `desc`:
-- it returns, the account is right again and in the array, closing ends at the target, opening ends
-- between the old count and the target, and at the target if every socket can be opened.
pub record DescDone (opens : Openings) (w : World) (r : Reply Ended) : Type 0 where
  pub returns : r.out ≡ ended
  pub account : r.world.point.desc ≡ pos r.world.socks
  pub fits : r.world.point.desc ≤ℤ desc_max
  pub closes : ltb_ℤ w.point.dest_desc w.point.desc ≡ true → r.world.point.desc ≡ w.point.dest_desc
  pub opens_more :
      ltb_ℤ w.point.desc w.point.dest_desc ≡ true
      → (w.point.desc ≤ℤ r.world.point.desc) × (r.world.point.desc ≤ℤ w.point.dest_desc)
  pub reaches : ((n : ℕ) → is_success (opens n) ≡ true) → r.world.point.desc ≡ w.point.dest_desc

-- With a target behind the array and no opening refused, opening runs over its end.
open_loop-overrun :
    (opens : Openings) (fuel n socks : ℕ) (current dest : ℤ)
    → gap dest current < fuel
    → pos 0 ≤ℤ current
    → current ≤ℤ desc_max
    → ltb_ℤ desc_max dest ≡ true
    → ((k : ℕ) → is_success (opens k) ≡ true)
    → (open_loop opens fuel n socks current dest).how ≡ fault
unfolding open_loop
open_loop-overrun opens zero n socks current dest enough lo hi more all = absurd (omega arith)
open_loop-overrun opens (suc fuel) n socks current dest enough lo hi more all =
    let behind = ltb→lt _ _ more in
    let goes : ltb_ℤ current dest ≡ true = lt→ltb _ _ (omega (arith, behind, hi)) in
    elim (Bool-cases (in_array current)) [
      | inl inside ↦
          let below : ltb_ℤ current desc_max ≡ true = ground arith in
          let step = +ℤ_parts current (pos 1) in
          let lt = ltb→lt _ _ below in
          let next =
            open_loop-overrun opens fuel (n + 1) (socks + 1) (current +ℤ pos 1) dest
              (omega (arith, behind)) (omega arith) (omega arith) more all in
          rw (goes, inside, all n) next
      | inr outside ↦ rw (goes, outside) refl
    ]

module _ (opens : Openings) (w : World) where
  open w use {point as p, socks}

  abbrev opening : Count
  opening = open_loop opens (gap p.dest_desc p.desc + 1) 0 socks p.desc p.dest_desc

  abbrev closing : Count
  closing = close_loop (gap p.desc p.dest_desc + 1) socks p.desc p.dest_desc

  desc_body-opening :
      ltb_ℤ p.desc p.dest_desc ≡ true
      → let r = desc_body opens w in
        (r.out ≡ opening.how)
        × (r.world.point.desc ≡ opening.current)
        × (r.world.socks ≡ opening.socks)
  unfolding desc_body
  desc_body-opening below = (ground arith, ground arith, ground arith)

  desc_body-closing :
      ltb_ℤ p.dest_desc p.desc ≡ true
      → let r = desc_body opens w in
        (r.out ≡ closing.how)
        × (r.world.point.desc ≡ closing.current)
        × (r.world.socks ≡ closing.socks)
  unfolding desc_body
  desc_body-closing above = (ground arith, ground arith, ground arith)

  desc_body-rests :
      ltb_ℤ p.desc p.dest_desc ≡ false
      → ltb_ℤ p.dest_desc p.desc ≡ false
      → let r = desc_body opens w in (r.out ≡ ended) × (r.world ≡ w)
  unfolding desc_body
  desc_body-rests le ge = (ground arith, ground arith)

  -- `allimDesc` opens and closes sockets in step with its count: where the count is the number of
  -- open sockets, and the count and the target are from 0 to 65536, its work returns, without an
  -- access outside the array and within the fuel, and the count is the number of open sockets again.
  -- Closing ends at the target; opening ends between the old count and the target, and at the target
  -- if no opening is refused.
  pub desc_body-DescDone :
      w.point.desc ≡ pos w.socks
      → w.point.desc ≤ℤ desc_max
      → pos 0 ≤ℤ w.point.dest_desc
      → w.point.dest_desc ≤ℤ desc_max
      → DescDone opens w (desc_body opens w)
  desc_body-DescDone account fits nonneg target = elim (Bool-cases (ltb_ℤ p.desc p.dest_desc)) [
    | inl below ↦
        let r = desc_body-opening below in
        let start = ap pos_part account in
        let start' = ap neg_part account in
        let k =
          open_loop-Opened opens (gap p.dest_desc p.desc + 1) 0 socks p.desc p.dest_desc
            (omega arith) (omega (arith, ltb→lt _ _ below)) (omega arith) target in
        record {
          returns = r.0 ∙ k.how;
          account = r.1 ∙ eq_of_parts _ _ (omega (arith, k.opened)) ∙ ap pos (sym r.2);
          fits = rw r.1 (omega (arith, k.below));
          closes = λ above. absurd (omega (arith, ltb→lt _ _ above, ltb→lt _ _ below));
          opens_more = λ _. rw r.1 (k.above, k.below);
          reaches = λ all. r.1 ∙ k.reaches all;
        }
    | inr le ↦ elim (Bool-cases (ltb_ℤ p.dest_desc p.desc)) [
      | inl above ↦
          let r = desc_body-closing above in
          let start = ap pos_part account in
          let start' = ap neg_part account in
          let k =
            close_loop-Closed (gap p.desc p.dest_desc + 1) socks p.desc p.dest_desc (omega arith)
              (omega (arith, ltb→lt _ _ above)) nonneg fits in
          record {
            returns = r.0 ∙ k.how;
            account =
                r.1
                ∙ k.there
                ∙ eq_of_parts _ _ (omega (arith, k.closed, ltb→lt _ _ above))
                ∙ ap pos (sym r.2);
            fits = rw (r.1, k.there) target;
            closes = λ _. r.1 ∙ k.there;
            opens_more = λ below. absurd (false≢true (sym le ∙ below));
            reaches = λ all. r.1 ∙ k.there;
          }
      | inr ge ↦
          let r = desc_body-rests le ge in
          record {
            returns = r.0;
            account = rw r.1 account;
            fits = rw r.1 fits;
            closes = λ above. absurd (false≢true (sym ge ∙ above));
            opens_more = λ below. absurd (false≢true (sym le ∙ below));
            reaches = λ all. rw r.1 (eq_of_parts p.desc p.dest_desc (ground arith));
          }
    ]
  ]

  -- The array is not protected: with a count from 0 to 65536, a target above 65536 and no opening that is
  -- refused, `allimDesc` opens sockets up to the end of its array and then writes behind it.
  pub desc_body-overrun :
      pos 0 ≤ℤ w.point.desc
      → w.point.desc ≤ℤ desc_max
      → ltb_ℤ desc_max w.point.dest_desc ≡ true
      → ((k : ℕ) → is_success (opens k) ≡ true)
      → (desc_body opens w).out ≡ fault
  desc_body-overrun nonneg fits more all =
      let below : ltb_ℤ p.desc p.dest_desc ≡ true =
        lt→ltb _ _ (omega (arith, ltb→lt _ _ more, fits)) in
      (desc_body-opening below).0
      ∙ open_loop-overrun opens (gap p.dest_desc p.desc + 1) 0 socks p.desc p.dest_desc
          (omega arith) nonneg fits more all
