-- ===== src/Airtel/Tests.antt =====
-- A journey at concrete prices.
use today_i_learned.Common.{
  ℕ, zero, suc, ◌<◌, ◌≤◌, ◌≡◌, refl, List, [], ◌∷◌, arith, length, replicate,
}
use today_i_learned.Common.Int.{ℤ, pos}
use today_i_learned.Common.Run.{ok, Ends, read}
use today_i_learned.Airtel.{airtel_dc, airtel_dp}
use today_i_learned.Airtel.Loop.{limit, IsPrice, HasPrices}
use today_i_learned.Airtel.Table.{airtel_dp-airtel_dc}

abbrev prices : List ℕ → List ℤ
prices [] = []
prices (n ∷ ns) = pos n ∷ prices ns

abbrev AllSmall : List ℕ → Type 0
AllSmall [] = Unit {0}
AllSmall (n ∷ ns) = (n ≤ limit) × AllSmall ns

read-prices :
    (ns : List ℕ) (i : ℕ) → AllSmall ns → i < length ns → IsPrice (read (prices ns) (pos i))
read-prices [] i h b = absurd (omega arith)
read-prices (n ∷ ns) zero h b = (n, refl, h.0)
read-prices (n ∷ ns) (suc i) h b = read-prices ns i h.1 (omega arith)

replicate-AllSmall : (k n : ℕ) → n ≤ limit → AllSmall (replicate k n)
replicate-AllSmall zero n b = tt
replicate-AllSmall (suc k) n b = (b, replicate-AllSmall k n b)

abbrev fare_list : List ℕ
fare_list = 0 ∷ 1 ∷ 5 ∷ 8 ∷ replicate 26 14

abbrev hotel_list : List ℕ
hotel_list = 0 ∷ 5 ∷ 8 ∷ replicate 27 3

fares-HasPrices : HasPrices (prices fare_list)
fares-HasPrices i b =
    read-prices fare_list i
      (
        omega arith,
        (omega arith, (omega arith, (omega arith, replicate-AllSmall 26 14 (omega arith)))),
      )
      b

hotels-HasPrices : HasPrices (prices hotel_list)
hotels-HasPrices i b =
    read-prices hotel_list i
      (omega arith, (omega arith, (omega arith, replicate-AllSmall 27 3 (omega arith)))) b

airtel_dp-airtel_dc_example :
    Ends
      (λ (cost, m'). airtel_dc (prices fare_list) (prices hotel_list) 4 1 4 ≡ ok cost)
      (airtel_dp (prices fare_list) (prices hotel_list) 1 4 (replicate 30 (pos 0)))
airtel_dp-airtel_dc_example =
    airtel_dp-airtel_dc (prices fare_list) (prices hotel_list) fares-HasPrices hotels-HasPrices 1 4
      4 (replicate 30 (pos 0)) (omega arith) (omega arith) refl (omega arith)
