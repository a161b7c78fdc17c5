-- ===== src/Hub/Arming/Retire.antt =====
-- The bounded wait of CloseCon.
use target_facade.Base.{
  ℕ, zero, suc, ◌<◌, ◌≡◌, ◌≢◌, ◌↔◌, ◌⊎◌, inl, inr, refl, sym, ◌∙◌, Bool, true, false, Option, none,
  some, arith, Bool-cases, Option-cases,
}
use mathlib.Core.Path.{subst, ap}
use target_facade.Base.Text.{WString, is_empty}
use target_facade.Hub.{Hub, on_callbacks}
use target_facade.Hub.Pump.{wait_slice}
use target_facade.Hub.Pump.Latch.{wait_slice-SameRecords}
use target_facade.Hub.Kernel.{Kernel}
use target_facade.Hub.Arming.{await_gone, close_con, drop_record}
use target_facade.Hub.Records.{
  SameRecords, SameRecords-refl, SameRecords-trans, on_callbacks-SameRecords,
}

there_cases : (o : Option Bool) → (o ≡ some true) ⊎ (o ≢ some true)
there_cases (some true) = inl refl
there_cases (some false) = inr (λ e. cc)
there_cases none = inr (λ e. cc)

module _ (k : Kernel) where
  -- the hub and the kernel behind so many slices
  abbrev pub after_slices : ℕ → Hub → k.State → Hub × k.State
  after_slices zero h st = (h, st)
  after_slices (suc n) h st = let w = wait_slice k h st in after_slices n w.0 w.1

  -- The wait, by its meaning: the connection is not there at the start of one of the slices.
  abbrev pub LeavesWithin : ℕ → WString → Hub → k.State → Type 0
  LeavesWithin n peer h st =
      (i : ℕ) × (i < n) × (k.con_exists peer (after_slices i h st).1 ≢ some true)

  await_gone-wait :
      (n : ℕ) (peer : WString) (h : Hub) (st : k.State)
      → k.con_exists peer st ≡ some true
      → await_gone k (suc n) peer h st
        ≡ await_gone k n peer (wait_slice k h st).0 (wait_slice k h st).1
  unfolding await_gone
  await_gone-wait n peer h st e = rw (e, await_gone) refl

  await_gone-stop :
      (n : ℕ) (peer : WString) (h : Hub) (st : k.State)
      → k.con_exists peer st ≢ some true
      → await_gone k (suc n) peer h st ≡ (true, h, st)
  unfolding await_gone
  await_gone-stop n peer h st gone = elim (Option-cases (k.con_exists peer st)) [
    | inl e ↦ rw (e, await_gone) refl
    | inr (true, e) ↦ absurd (gone e)
    | inr (false, e) ↦ rw (e, await_gone) refl
  ]

  await_gone-true :
      (n : ℕ) (peer : WString) (h : Hub) (st : k.State)
      → (await_gone k n peer h st).0 ≡ true
      → LeavesWithin n peer h st
  unfolding await_gone
  await_gone-true zero peer h st e = cc
  await_gone-true (suc n) peer h st e = elim (there_cases (k.con_exists peer st)) [
    | inl there ↦
        let (i, low, gone) =
          await_gone-true n peer (wait_slice k h st).0 (wait_slice k h st).1
            (ap (λ r. r.0) (sym (await_gone-wait n peer h st there)) ∙ e) in
        (suc i, omega arith, gone)
    | inr gone ↦ (zero, omega arith, gone)
  ]

  await_gone-leaves :
      (n : ℕ) (peer : WString) (h : Hub) (st : k.State)
      → LeavesWithin n peer h st
      → (await_gone k n peer h st).0 ≡ true
  await_gone-leaves zero peer h st (i, low, gone) = absurd (omega arith)
  await_gone-leaves (suc n) peer h st (zero, low, gone) =
      ap (λ r. r.0) (await_gone-stop n peer h st gone)
  await_gone-leaves (suc n) peer h st (suc i, low, gone) =
      elim (there_cases (k.con_exists peer st)) [
        | inl there ↦
            ap (λ r. r.0) (await_gone-wait n peer h st there)
            ∙ await_gone-leaves n peer (wait_slice k h st).0 (wait_slice k h st).1
                (i, omega arith, gone)
        | inr now ↦ ap (λ r. r.0) (await_gone-stop n peer h st now)
      ]

  await_gone-SameRecords :
      (n : ℕ) (peer : WString) (h : Hub) (st : k.State) → SameRecords (await_gone k n peer h st).1 h
  unfolding await_gone
  await_gone-SameRecords zero peer h st = SameRecords-refl h
  await_gone-SameRecords (suc n) peer h st = elim (there_cases (k.con_exists peer st)) [
    | inl there ↦
        let w = wait_slice k h st in
        subst (λ r. SameRecords r.1 h) (sym (await_gone-wait n peer h st there))
          (SameRecords-trans (await_gone-SameRecords n peer w.0 w.1)
            (wait_slice-SameRecords k h st))
    | inr now ↦
        subst (λ r. SameRecords r.1 h) (sym (await_gone-stop n peer h st now)) (SameRecords-refl h)
  ]

  -- CloseCon of a peer whose address is not empty, when the kernel takes the signal, succeeds exactly when the connection is
  -- found to have left at the start of one of its slices.
  pub close_con-LeavesWithin :
      (peer : WString) (slices : ℕ) (h : Hub) (st : k.State)
      → is_empty peer ≡ false
      → (k.con_destroy peer st).0 ≡ true
      → (close_con k peer slices h st).0 ≡ true
        ↔ LeavesWithin slices peer
            (on_callbacks (k.con_destroy peer st).1 (drop_record peer h))
            (k.con_destroy peer st).2
  unfolding close_con
  close_con-LeavesWithin peer slices h st named signalled =
      rw (named, signalled)
        (
          await_gone-true slices peer (on_callbacks (k.con_destroy peer st).1 (drop_record peer h))
              (k.con_destroy peer st).2,
          await_gone-leaves slices peer
              (on_callbacks (k.con_destroy peer st).1 (drop_record peer h))
              (k.con_destroy peer st).2,
        )

  pub close_con-SameRecords :
      (peer : WString) (slices : ℕ) (h : Hub) (st : k.State)
      → is_empty peer ≡ false
      → SameRecords (close_con k peer slices h st).1 (drop_record peer h)
  unfolding close_con
  close_con-SameRecords peer slices h st named =
      let r = k.con_destroy peer st in
      let heard = on_callbacks-SameRecords r.1 (drop_record peer h) in
      elim (Bool-cases r.0) [
        | inl ok ↦
            rw (named, ok)
              (SameRecords-trans
                (await_gone-SameRecords slices peer (on_callbacks r.1 (drop_record peer h)) r.2)
                heard)
        | inr thrown ↦ rw (named, thrown) heard
      ]
