-- ===== src/Risk/Coverage.antt =====
-- The orders that the risk layer of src/orderbook/risk.rs tracks are located on the book: `on_cancel` and
-- `clear` against the index of locations.
use order_book_rs.Prelude.{◌≡◌, sym, ◌∙◌, true, none, some, [], arith, ℕ, if◌then◌else◌, ◌==◌}
use order_book_rs.Prelude.Maps.{Map, lookup, erase, lookup-erase, contains}
use order_book_rs.Risk.{RiskState, RiskConfig, on_cancel, cancel_entry, clear}
use order_book_rs.Risk.Gate.{on_cancel-config}

-- With a risk configuration, every order that the risk layer tracks is located on the book.
abbrev pub IsCovered : {A : Type 0} → RiskState → Map A → Type 0
IsCovered s locations =
    (cfg : RiskConfig) (id : ℕ)
    → s.config ≡ some cfg
    → contains id s.orders ≡ true
    → contains id locations ≡ true

on_cancel-orders :
    (s : RiskState) (cfg : RiskConfig) (id j : ℕ)
    → s.config ≡ some cfg
    → lookup j (on_cancel s id).orders ≡ (if id == j then none else lookup j s.orders)
unfolding on_cancel cancel_entry
on_cancel-orders s cfg id j enabled = ground (arith, lookup-erase id j s.orders)

pub on_cancel-IsCovered :
    {A : Type 0} (s : RiskState) (id : ℕ) (locations : Map A)
    → IsCovered s locations
    → IsCovered (on_cancel s id) (erase id locations)
on_cancel-IsCovered s id locations h cfg j enabled tracked =
    let before : s.config ≡ some cfg = sym (on_cancel-config s id) ∙ enabled in
    ground (arith, on_cancel-orders s cfg id j before, lookup-erase id j locations, h cfg j before)

-- Nothing is tracked after a clear, so nothing has to be located.
pub clear-IsCovered : (A : Type 0) (s : RiskState) → IsCovered {A = A} (clear s) []
unfolding clear
clear-IsCovered A s cfg id enabled tracked = tracked
