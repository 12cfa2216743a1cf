-- ===== src/Drivers/Ata/Polling.antt =====
-- The polling loops of drivers/ata.c end.
use black_hole_os.Prelude.{
  ℕ, zero, suc, ◌<◌, ◌≡◌, refl, sym, ◌∙◌, subst, arith, Bool-cases, true, false, inl, inr, Option,
  some, bit_and, ◌==◌,
}
use black_hole_os.Drivers.Ata.{Ports, ata_wait_bsy, ata_wait_drq}
use black_hole_os.Drivers.Ata.Device.{Drive, IsAta, Wants, View}

module _ {ports : Ports} (drive : Drive ports) where
  -- A ready drive that looks like `v`.
  pub record Ready (v : View) (s : ports.State) : Type 0 where
    pub view_is : drive.view s ≡ v
    pub no_delay : drive.delay s ≡ 0

  -- A computation on the ports that ends, and what it leaves.
  abbrev pub Ends : Option ports.State → View → Type 0
  Ends run v = (s : ports.State) × (run ≡ some s) × Ready v s

module _ {ports : Ports} {drive : Drive ports} {latency : ℕ} (ata : IsAta ports drive latency) where
  wait_bsy-Ends :
      (fuel : ℕ) (s : ports.State)
      → drive.delay s < fuel
      → Ends drive (ata_wait_bsy ports fuel s) (drive.view s)
  unfolding ata_wait_bsy
  wait_bsy-Ends zero s enough = absurd (omega arith)
  wait_bsy-Ends (suc fuel) s enough =
      let polled = ports.inb 0x1F7 s in
      elim (Bool-cases (drive.delay s == 0)) [
        | inl now ↦
            let settled = ata.poll_ready s (ground arith) in
            let clear : (bit_and polled.0 0x80 == 0) ≡ true = ground (arith, settled) in
            rw clear (polled.1, refl, record { view_is = ata.poll_view s; no_delay = settled.1 })
        | inr later ↦
            let busy = ata.poll_busy s (ground arith) in
            let high : (bit_and polled.0 0x80 == 0) ≡ false = ground (arith, busy) in
            let (s', run, after) = wait_bsy-Ends fuel polled.1 (omega (arith, busy.1)) in
            rw high (
              s',
              run,
              record { view_is = after.view_is ∙ ata.poll_view s; no_delay = after.no_delay },
            )
      ]

  -- With fuel for one poll more than a drive may stay busy, waiting for it to be ready ends, in a
  -- state where it is ready and all else is as before.
  pub ata_wait_bsy-Ends :
      (fuel : ℕ) (s : ports.State)
      → latency < fuel
      → Ends drive (ata_wait_bsy ports fuel s) (drive.view s)
  ata_wait_bsy-Ends fuel s enough = wait_bsy-Ends fuel s (omega (arith, ata.prompt s))

  pub ata_wait_drq-Ends :
      (fuel : ℕ) (s : ports.State) (v : View)
      → latency < fuel
      → Ready drive v s
      → Wants v.transfer
      → Ends drive (ata_wait_drq ports fuel s) v
  unfolding ata_wait_drq
  ata_wait_drq-Ends zero s v enough ready wants = absurd (omega arith)
  ata_wait_drq-Ends (suc fuel) s v enough ready wants =
      let polled = ports.inb 0x1F7 s in
      let wanted = subst (λ (v' : View). Wants v'.transfer) (sym ready.view_is) wants in
      let asks = ata.poll_request s ready.no_delay wanted in
      let high : (bit_and polled.0 0x08 == 0) ≡ false = ground (arith, asks) in
      rw high (
        polled.1,
        refl,
        record {
          view_is = ata.poll_view s ∙ ready.view_is;
          no_delay = (ata.poll_ready s ready.no_delay).1;
        },
      )
