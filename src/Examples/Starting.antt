-- ===== src/Examples/Starting.antt =====
-- A configuration that starts, and one without durations.
use cc_metric_collector.Prelude.{◌≡◌, ◌↔◌, true, false, String}
use cc_metric_collector.Prelude.Int.{ℤ, pos, ltb_ℤ, leb_ℤ}
use cc_metric_collector.Values.{Result, ok}
use cc_metric_collector.Program.{CentralConfigFile, Sections, panics, main_func}
use cc_metric_collector.Program.Startup.{
  IsRunning, Sets, HasSections, main_func-panics, main_func-IsRunning,
}

abbrev ten : String → Result ℤ
ten s = ok (pos 10000000000)

abbrev complete_sections : Sections
complete_sections = record { router = "{}"; sinks = "{}"; collectors = "{}"; receivers = "{}" }

main_func-IsRunning_example :
    IsRunning true
      (main_func (λ p. true) ten (record { interval = "10s"; duration = "10s" }) complete_sections)
main_func-IsRunning_example =
    main_func-IsRunning (λ p. true) ten (record { interval = "10s"; duration = "10s" })
      complete_sections

abbrev unset : CentralConfigFile
unset = record { interval = ""; duration = "" }

main_func-panics_example : (main_func (λ p. true) ten unset complete_sections ≡ panics) ↔ (
    (i : ℤ) × (d : ℤ) × Sets ten "" i
    × Sets ten "" d
    × (ltb_ℤ i d ≡ false)
    × (leb_ℤ i (pos 0) ≡ true)
    × HasSections complete_sections)
main_func-panics_example = main_func-panics (λ p. true) ten unset complete_sections
