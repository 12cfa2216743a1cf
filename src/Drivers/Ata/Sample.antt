-- ===== src/Drivers/Ata/Sample.antt =====
-- An ATA drive in memory, for runs of drivers/ata.c.
use black_hole_os.Prelude.{
  ℕ, ◌^◌, ◌%◌, ◌<◌, ◌≡◌, ◌≢◌, refl, arith, Bool, true, false, [], ◌∷◌, ◌++◌, length,
  length-replicate, replicate, bit_and, ◌==◌, if◌then◌else◌, Bool-cases, inl, inr,
}
use black_hole_os.Drivers.Ata.{Ports}
use black_hole_os.Drivers.Ata.Device.{
  Drive, IsAta, TakesAtOnce, Identifies, View, Transfer, idle, reading, writing, give, store,
  address, Wants,
}
use black_hole_os.Drivers.Ata.Transfer.{AtRest}

pub record AtaUnit : Type 0 where
  pub looks : View
  pub busy : Bool

abbrev change : AtaUnit → View → AtaUnit
change s v = record s { looks = v }

abbrev command : ℕ → AtaUnit → AtaUnit
command value s =
    if value == 0x20
    then record {
      looks = record (s.looks) { transfer = give (s.looks.stored (address s.looks)) };
      busy = true;
    }
    else if value == 0x30
    then record {
      looks = record (s.looks) { transfer = writing (address s.looks) [] };
      busy = true;
    }
    else if value == 0xEC
    then record { looks = record (s.looks) { transfer = give (replicate 256 0) }; busy = true }
    else record s { busy = true }

abbrev put_byte : ℕ → ℕ → AtaUnit → AtaUnit
put_byte port value s =
    if port == 0x1F6
    then change s (record (s.looks) { drive = value })
    else if port == 0x1F2
    then change s (record (s.looks) { count = value })
    else if port == 0x1F3
    then change s (record (s.looks) { low = value })
    else if port == 0x1F4
    then change s (record (s.looks) { mid = value })
    else if port == 0x1F5
    then change s (record (s.looks) { high = value })
    else if port == 0x1F7
    then command value s
    else s

abbrev status_of : Transfer → ℕ
status_of idle = 0x50
status_of (reading words) = 0x58
status_of (writing lba words) = 0x58

abbrev get_byte : ℕ → AtaUnit → ℕ × AtaUnit
get_byte port s =
    if s.busy then (0x80, record s { busy = false }) else (status_of s.looks.transfer, s)

abbrev next_word : AtaUnit → Transfer → ℕ × AtaUnit
next_word s (reading (w ∷ words)) = (w, change s (record (s.looks) { transfer = give words }))
next_word s (reading []) = (0, s)
next_word s idle = (0, s)
next_word s (writing lba words) = (0, s)

abbrev take_word : ℕ → AtaUnit → Transfer → AtaUnit
take_word w s idle = s
take_word w s (reading words) = s
take_word w s (writing lba words) =
    if length words == 255
    then change s (record (s.looks) {
      transfer = idle;
      stored = store (s.looks.stored) lba (words ++ w ∷ []);
    })
    else change s (record (s.looks) { transfer = writing lba (words ++ w ∷ []) })

abbrev pub unit_ports : Ports
unit_ports = record {
  State = AtaUnit;
  inb = get_byte;
  inw = λ port s. next_word s s.looks.transfer;
  outb = put_byte;
  outw = λ port w s. take_word w s s.looks.transfer;
}

abbrev pub unit_drive : Drive unit_ports
unit_drive = record { view = λ s. s.looks; delay = λ s. if s.busy then 1 else 0 }

status-requests : (t : Transfer) → Wants t → bit_and (status_of t) 0x08 ≢ 0
status-requests idle wants = absurd wants
status-requests (reading words) wants = λ e. absurd (omega arith)
status-requests (writing lba words) wants = λ e. absurd (omega arith)

status-idle : (t : Transfer) → bit_and (status_of t) 0x80 ≡ 0
status-idle idle = refl
status-idle (reading words) = refl
status-idle (writing lba words) = refl

abbrev polls : Bool → ℕ
polls b = if b then 1 else 0

quiet : (b : Bool) → polls b ≡ 0 → b ≡ false
quiet true h = absurd (omega arith)
quiet false h = refl

noisy : (b : Bool) → 0 < polls b → b ≡ true
noisy true h = refl
noisy false h = absurd (omega arith)

pub unit_IsAta : IsAta unit_ports unit_drive 1
unit_IsAta = record {
  prompt =
      λ s. elim (Bool-cases s.busy) [ inl e ↦ rw e (omega arith) | inr e ↦ rw e (omega arith) ];
  poll_view = λ s. elim (Bool-cases s.busy) [ inl e ↦ rw e refl | inr e ↦ rw e refl ];
  poll_busy = λ s h. let e = noisy s.busy h in rw e ((λ z. absurd (omega arith)), omega arith);
  poll_ready = λ s h. let e = quiet s.busy h in rw e (status-idle s.looks.transfer, refl);
  poll_request =
      λ s h wants. let e = quiet s.busy h in rw e (status-requests s.looks.transfer wants);
  put_drive = λ s v h. (refl, h);
  put_features = λ s v h. (refl, h);
  put_count = λ s v h. (refl, h);
  put_low = λ s v h. (refl, h);
  put_mid = λ s v h. (refl, h);
  put_high = λ s v h. (refl, h);
  read_command = λ s h free selects. refl;
  write_command = λ s h free selects. refl;
  flush_command = λ s h free. refl;
  get_data = λ s w words h e. rw e (refl, refl, h);
  put_data = λ s w lba words h e few.
      let more : (length words == 255) ≡ false = ground arith in rw (e, more) (refl, h);
  put_last = λ s w lba words h e full.
      let last : (length words == 255) ≡ true = ground arith in rw (e, last) refl;
}

-- A drive that is busy with the end of what it did before.
abbrev pub first_state : AtaUnit
first_state = record {
  looks = record {
    drive = 0;
    count = 0;
    low = 0;
    mid = 0;
    high = 0;
    transfer = idle;
    stored = λ lba. replicate 256 (lba % 2 ^ 16);
  };
  busy = true;
}

pub first_state-AtRest : AtRest unit_drive first_state
first_state-AtRest = record {
  no_transfer = refl;
  sized = λ lba. length-replicate 256 (lba % 2 ^ 16);
}

pub unit_TakesAtOnce : TakesAtOnce unit_ports unit_drive
unit_TakesAtOnce s w lba words h e = elim (Bool-cases (length words == 255)) [
  | inl last ↦ rw (e, last) h
  | inr more ↦ rw (e, more) h
]

pub unit_Identifies : Identifies unit_ports unit_drive
unit_Identifies = record {
  answer = replicate 256 0;
  answer_size = length-replicate {A = ℕ} 256 0;
  identify_command = λ s h free. refl;
}
