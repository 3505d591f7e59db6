-- ===== src/Keyboard/Polling.antt =====
-- src/drivers/usb/hid_keyboard.rs: the poll of the keyboard.
use crab_efi.Prelude.{
  ℕ, Bool, List, Option, none, some, ◌≡◌, ◌∙◌, inl, inr, Bool-cases, ap, sym, subst, ◌+◌,
  if◌then◌else◌,
}
use crab_efi.Keyboard.Timer.{from_ms}
use crab_efi.Keyboard.Hid.{
  UsbHidKeyboard, handle_repeat, poll, UsbInput, take_report, repeat_early, poll_keyboard,
  report_of, min_poll_interval_ms, is_early,
}
use crab_efi.Keyboard.Reached.{Reached, reported, repeated}

take_report-Reached :
    (cycles_per_us : ℕ) (clock : ℕ → ℕ) (kb : UsbHidKeyboard) (answer : Option (List ℕ))
    → Reached kb
    → Reached (take_report cycles_per_us clock kb answer)
take_report-Reached cycles_per_us clock kb none r = r
take_report-Reached cycles_per_us clock kb (some report_buf) r =
    reported cycles_per_us (λ n. clock (n + 2)) (report_of report_buf) r

-- Polling leads from a state that is reached to one that is.
pub poll-Reached :
    (cycles_per_us : ℕ) (clock : ℕ → ℕ) (input : UsbInput) (answer : Option (List ℕ))
    {kb kb' : UsbHidKeyboard}
    → input.keyboard ≡ some kb
    → (poll cycles_per_us clock input answer).keyboard ≡ some kb'
    → Reached kb
    → Reached kb'
unfolding poll
poll-Reached cycles_per_us clock input answer {kb = kb} {kb' = kb'} here there r =
    let early = repeat_early cycles_per_us clock input.keyboard in
    let late = poll_keyboard cycles_per_us clock input.keyboard answer in
    let kept : Option UsbHidKeyboard → Option UsbHidKeyboard → Bool → Option UsbHidKeyboard =
      λ a b t.
        (if t then record input { keyboard = a } else record {
          keyboard = b;
          next_poll_timeout = some (from_ms cycles_per_us (clock 1) min_poll_interval_ms);
        }).keyboard in
    elim (Bool-cases (is_early input.next_poll_timeout (clock 0))) [
      | inl soon ↦
          let kb'' = handle_repeat cycles_per_us (λ n. clock (n + 1)) kb in
          let same : some kb'' ≡ some kb' =
            sym (ap (repeat_early cycles_per_us clock) here)
            ∙ sym (ap (kept early late) soon)
            ∙ there in
          let equal : kb'' ≡ kb' = cc in
          subst Reached equal (repeated cycles_per_us (λ n. clock (n + 1)) r)
      | inr due ↦
          let reported_kb = take_report cycles_per_us clock kb answer in
          let kb'' = handle_repeat cycles_per_us (λ n. clock (n + 8)) reported_kb in
          let same : some kb'' ≡ some kb' =
            sym (ap (λ o. poll_keyboard cycles_per_us clock o answer) here)
            ∙ sym (ap (kept early late) due)
            ∙ there in
          let equal : kb'' ≡ kb' = cc in
          subst Reached equal (
            repeated cycles_per_us (λ n. clock (n + 8))
              (take_report-Reached cycles_per_us clock kb answer r))
    ]
