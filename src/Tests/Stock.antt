-- ===== src/Tests/Stock.antt =====
-- Reservations against the stock of an item.
use yourz_gift.Base.{◌+◌, ◌≤◌, String, ◌≡◌, ◌≢◌, ◌↔◌, refl, some, ok, [], ◌∷◌}
use yourz_gift.Db.{first}
use yourz_gift.Db.Memory.{table}
use yourz_gift.Domain.Gift.{GiftItem}
use yourz_gift.Gift.{Database}
use yourz_gift.Gift.Repo.{is_open_item, reserved_of, create_reservation_with_availability}
use yourz_gift.Gift.Repo.Availability.{IsReserved, reserved_in, reserve_iff, reserve-within-stock}
use yourz_gift.Tests.Sample.{queries, memory_gorm, sample, one_kettle, two_kettles}

abbrev reserved_sample : Database memory_gorm
reserved_sample = record sample {
  reservations = table (one_kettle ∷ record two_kettles { updated_at = some 100 } ∷ []);
}

reserve_run : create_reservation_with_availability two_kettles sample ≡ (ok tt, reserved_sample)
unfolding queries create_reservation_with_availability reserved_of
reserve_run = refl

reserve-within-stock_example :
    (item : GiftItem) × (first memory_gorm.items (is_open_item "i1") reserved_sample.items
      ≡ ok item)
    × (reserved_in reserved_sample "i1" ≡ reserved_in sample "i1" + 2)
    × (reserved_in reserved_sample "i1" ≤ item.quantity)
    × ((other : String)
        → other ≢ "i1"
        → reserved_in reserved_sample other ≡ reserved_in sample other)
reserve-within-stock_example =
    reserve-within-stock two_kettles sample reserved_sample refl refl reserve_run

reserve_iff_example :
    (create_reservation_with_availability two_kettles sample ≡ (ok tt, reserved_sample))
    ↔ IsReserved two_kettles sample reserved_sample
reserve_iff_example = reserve_iff two_kettles sample reserved_sample
