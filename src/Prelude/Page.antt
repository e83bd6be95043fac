-- ===== src/Prelude/Page.antt =====
-- The page of a result that `LIMIT` and `OFFSET` choose.
use mathlib.Core.List.{List}
use token_hub.Prelude.Tests.{if◌then◌else◌}
use token_hub.Prelude.Lists.{take, drop}
use token_hub.Prelude.Int.{ℤ, pos, pos_part, ltb_ℤ}

-- `LIMIT ? OFFSET ?`: a negative limit is none, and a negative offset is 0.
abbrev pub page {ℓ} : {A : Type ℓ} → (limit offset : ℤ) → List A → List A
page limit offset rows =
    let rest = drop (pos_part offset) rows in
    if ltb_ℤ limit (pos 0) then rest else take (pos_part limit) rest
