-- ===== src/Commercial/Ledger/Bounds.antt =====
-- Every ledger that sales and payments can reach.
use zylo_office_backend.Prelude.{string_eq, nat_eq}
use zylo_office_backend.Commercial.Tables.{CommercialDb}
use zylo_office_backend.Commercial.Ledger.{IsSound, LedgerStep, LedgerReach, sold, paid, here, next}
use zylo_office_backend.Commercial.Ledger.Sold.{sold-IsSound}
use zylo_office_backend.Commercial.Ledger.Paid.{paid-IsSound}

step-IsSound : (db db' : CommercialDb) → LedgerStep db db' → IsSound db → IsSound db'
step-IsSound db db' (sold now o u req fresh_sale fresh s positive is_fresh done) sound =
    sold-IsSound db now o u req fresh_sale fresh s db' positive is_fresh done sound
step-IsSound db db' (paid now o u req fresh p done) sound =
    paid-IsSound db now o u req fresh p db' done sound

-- Whatever sales and payments follow on a sound ledger, it stays sound: no account owes more than
-- its limit, and the status of every receivable is the one that its payments give.
pub reach-IsSound : (db db' : CommercialDb) → LedgerReach db db' → IsSound db → IsSound db'
reach-IsSound db db' here sound = sound
reach-IsSound db db' (next {mid} before step) sound =
    step-IsSound mid db' step (reach-IsSound db mid before sound)
