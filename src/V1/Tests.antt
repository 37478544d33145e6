-- ===== src/V1/Tests.antt =====
-- The theorems on the page of v1, applied to sample data.
use lens.Prelude.{◌≡◌, refl, map, arith}
use lens.Js.Number.{decimal}
use lens.Js.Date.{time_value}
use lens.Ui.State.{App}
use lens.Ui.Spec.{desc_value}
use lens.Ui.Tests.{page, pool}
use lens.Ui.Actions.{make_secret}
use lens.Ui.Actions
use lens.Ui.Data
use lens.V1.Api.{parse_time_z, seconds_text}
use lens.V1
use lens.V1.Rounding.{IsWhole}
use lens.V1.Likeness.{outcome, relabel, without_list, entry-first, step-first}

-- A time with a part of a second is written with it.
fraction_test : parse_time_z "2023-06-14T15:15:15.250Z" ≡ "1686755715.25"
unfolding parse_time_z time_value seconds_text decimal
fraction_test = refl

abbrev dated : App
dated = record page { dom = record (page.dom) { secret_expiration = "2023-06-21" } }

dated-IsWhole : IsWhole (time_value "2023-06-21")
unfolding time_value
dated-IsWhole = (refl, omega arith)

entry-first_example :
    V1.Data.make_pool_entry_for_printing (desc_value pool) page
    ≡ outcome (map relabel) (Data.make_pool_entry_for_printing (desc_value pool) page)
entry-first_example = entry-first (desc_value pool) page

step-first_example :
    without_list (V1.Actions.step dated (make_secret "readonly"))
    ≡ without_list (Actions.step dated (make_secret "readonly"))
step-first_example = step-first (make_secret "readonly") dated dated-IsWhole
