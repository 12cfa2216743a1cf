-- ===== src/Drivers/Ata/Start.antt =====
-- `ata_init` of drivers/ata.c on a drive that is there.
use black_hole_os.Prelude.{
  ℕ, ◌-◌, ◌<◌, ◌≡◌, ◌≢◌, refl, sym, ◌∙◌, ap, subst, arith, some, List, [], ◌∷◌, length, take,
  bit_and, ◌==◌, Bool-cases, inl, inr, false,
}
use black_hole_os.Drivers.Vga.{Screen, vga_print}
use black_hole_os.Libc.Stdio.Printf.{render, printf-render}
use black_hole_os.Drivers.Ata.{Ports, ata_init, drain, identify, initialized_text}
use black_hole_os.Drivers.Ata.Device.{Drive, IsAta, Identifies, View, idle, give, Wants}
use black_hole_os.Drivers.Ata.Polling.{Ready, ata_wait_bsy-Ends}
use black_hole_os.Drivers.Ata.Transfer.{AtRest, disk_of}
use black_hole_os.Drivers.Ata.Words.{during, bytes_of, give-Wants}

module _ {ports : Ports} {drive : Drive ports} {latency : ℕ} (ata : IsAta ports drive latency) where
  drain-Ready :
      (words : List ℕ) (s : ports.State) (v : View)
      → Ready drive (during v (give words)) s
      → Ready drive (during v idle) (drain ports (length words) s)
  unfolding drain
  drain-Ready [] s v ready = ready
  drain-Ready (w ∷ words) s v ready =
      let (got, view, on) =
        ata.get_data s w words ready.no_delay (ap (λ (v' : View). v'.transfer) ready.view_is) in
      drain-Ready words (ports.inw 0x1F0 s).1 v (record {
        view_is = view ∙ ap (λ (v' : View). during v' (give words)) ready.view_is;
        no_delay = on;
      })

  -- A drive that has something to give does not look absent.
  status_ne_zero : (s : ports.State) → Wants (drive.view s).transfer → (ports.inb 0x1F7 s).0 ≢ 0
  status_ne_zero s wants e = elim (Bool-cases (drive.delay s == 0)) [
    | inl now ↦ ata.poll_request s (ground arith) wants (ap (λ (x : ℕ). bit_and x 0x08) e)
    | inr later ↦ (ata.poll_busy s (ground arith)).0 (ap (λ (x : ℕ). bit_and x 0x80) e)
  ]

  -- The registers that `ata_init` writes.
  abbrev asked : View → View
  asked v = record v { drive = 0xA0; count = 0; low = 0; mid = 0; high = 0 }

  identify-view :
      (ident : Identifies ports drive) (s : ports.State)
      → drive.delay s ≡ 0
      → (drive.view s).transfer ≡ idle
      → drive.view (identify ports s) ≡ during (asked (drive.view s)) (give ident.answer)
  identify-view ident s on free =
      let (v1, d1) = ata.put_drive s 0xA0 on in
      let s1 = ports.outb 0x1F6 0xA0 s in
      let (v2, d2) = ata.put_count s1 0 d1 in
      let s2 = ports.outb 0x1F2 0 s1 in
      let (v3, d3) = ata.put_low s2 0 d2 in
      let s3 = ports.outb 0x1F3 0 s2 in
      let (v4, d4) = ata.put_mid s3 0 d3 in
      let s4 = ports.outb 0x1F4 0 s3 in
      let (v5, d5) = ata.put_high s4 0 d4 in
      let s5 = ports.outb 0x1F5 0 s4 in
      let before : drive.view s5 ≡ asked (drive.view s) = rw (v5, v4, v3, v2, v1) refl in
      ident.identify_command s5 d5 (ap (λ (v : View). v.transfer) before ∙ free)
      ∙ ap (λ (v : View). during v (give ident.answer)) before

  -- If the drive is at rest and not busy, and there is fuel for one poll more than it may stay
  -- busy, `ata_init` comes back with its message, and the drive is at rest with the same disk.
  pub ata_init-AtRest :
      (ident : Identifies ports drive) (fuel : ℕ) (buf : List ℕ) (s : ports.State) (screen : Screen)
      → length buf ≡ 32
      → latency < fuel
      → drive.delay s ≡ 0
      → AtRest drive s
      → (s' : ports.State) × (screen' : Screen) × (ata_init ports fuel buf s screen
          ≡ some (s', screen'))
        × AtRest drive s'
        × ((l : ℕ) → disk_of drive s' l ≡ disk_of drive s l)
  unfolding ata_init render disk_of
  ata_init-AtRest ident fuel buf s screen size enough on rest =
      let v = asked (drive.view s) in
      let words = ident.answer in
      let s1 = identify ports s in
      let view1 = identify-view ident s on rest.no_transfer in
      let wants = give-Wants words (omega (arith, ident.answer_size)) in
      let wants1 : Wants (drive.view s1).transfer =
        subst (λ (v' : View). Wants v'.transfer) (sym view1) wants in
      let there : ((ports.inb 0x1F7 s1).0 == 0) ≡ false =
        ground (arith, status_ne_zero s1 wants1) in
      let s2 = (ports.inb 0x1F7 s1).1 in
      let (s3, run, ready3) = ata_wait_bsy-Ends ata fuel s2 enough in
      let view3 : drive.view s3 ≡ during v (give words) =
        ready3.view_is ∙ ata.poll_view s1 ∙ view1 in
      let asks =
        ata.poll_request s3 ready3.no_delay
          (subst (λ (v' : View). Wants v'.transfer) (sym view3) wants) in
      let high : (bit_and (ports.inb 0x1F7 s3).0 0x08 == 0) ≡ false = ground (arith, asks) in
      let s4 = (ports.inb 0x1F7 s3).1 in
      let ready4 : Ready drive (during v (give words)) s4 = record {
        view_is = ata.poll_view s3 ∙ view3;
        no_delay = (ata.poll_ready s3 ready3.no_delay).1;
      } in
      let drained = drain-Ready words s4 v ready4 in
      let end = rw ident.answer_size at drained in
      let text = take (length initialized_text - 1) initialized_text in
      (
        drain ports 256 s4,
        vga_print screen text,
        rw (there, run, high, printf-render buf size initialized_text [] screen text refl) refl,
        record {
          no_transfer = ap (λ (v' : View). v'.transfer) end.view_is;
          sized = λ l. ap (λ (v' : View). length (v'.stored l)) end.view_is ∙ rest.sized l;
        },
        λ l. ap (λ (v' : View). bytes_of (v'.stored l)) end.view_is,
      )
