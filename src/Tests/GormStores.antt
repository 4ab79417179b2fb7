-- ===== src/Tests/GormStores.antt =====
-- The store of grom.go over a database of one table, which keeps every time as it is.
use native.Mathlib.Nat.{le_refl}
use agscheduler.Base.{
  [], subst, ◌≤◌, ◌≡◌, refl, sym, String, Option, none, some, map, inr, leb, arith, some_inj,
  some≢none, Bool, if◌then◌else◌, ◌==◌, ne→test,
}
use agscheduler.Base.Dict.{Dict, Unique, insert, lookup, lookup-insert}
use agscheduler.Errors.{external}
use agscheduler.Store.Contract.{IsLawful}
use agscheduler.Store.Codec.{kept}
use agscheduler.Store.Keyed.{Entry, IsStored, view}
use agscheduler.Store.Gorm.{Row, Client, gorm_store}
use agscheduler.Store.Listing.{IsListing}
use agscheduler.Store.Gorm.Listing.{row_in, IsScanned, gorm_store-IsListing}
use agscheduler.Store.Gorm.Refines.{found_row, IsGorm, docs, Good, Named, gorm_store-IsLawful}
use agscheduler.Tests.Tables.{
  insert-Unique, removed-Unique, removed, lookup-removed, IsOrder, least, least_le,
}
use agscheduler.Tests.Codecs.{codec, codec-IsGob}

abbrev row_if : Option (String × Entry) → Option Row
row_if none = none
row_if (some r) = some (row_in r)

abbrev IsEarlier : Entry → Entry → Type 0
IsEarlier a b = a.time ≤ b.time

abbrev is_earlier : Entry → Entry → Bool
is_earlier a b = leb a.time b.time

times-IsOrder : IsOrder IsEarlier is_earlier
times-IsOrder = record {
  sound = λ a b h. ground arith;
  total = λ a b h. ground arith;
  trans = λ a b c h k. omega (arith, h, k);
  same = λ a. le_refl a.time;
}

abbrev first_in : Dict Entry → Option (String × Entry)
first_in = least times-IsOrder

abbrev client : Client (Dict Entry)
client = record {
  auto_migrate = λ table d. (none, d);
  create = λ table row d.
      (none, insert row.id (record { time = row.next_run_time; state = row.state }) d);
  find_by_id = λ table id d. inr (found_row id (lookup id d));
  find_all = λ table d. inr (map row_in d);
  save = λ table row d.
      if row.id == ""
      then (some (external "Duplicate entry"), d)
      else (none, insert row.id (record { time = row.next_run_time; state = row.state }) d);
  delete_by_id = λ table id d. (none, removed id d);
  delete_rows = λ table d. (none, []);
  find_first = λ table d. inr (row_if (first_in d));
  drop_table = λ table d. (none, []);
}

abbrev Ready : Dict Entry → String → Type 0
Ready d table = Unique d

abbrev rows : Dict Entry → String → String → Option Entry
rows d table i = lookup i d

row_if-some :
    (o : Option (String × Entry)) (row : Row)
    → row_if o ≡ some row
    → (r : String × Entry) × (o ≡ some r) × (row_in r ≡ row)
row_if-some none row h = absurd (some≢none (sym h))
row_if-some (some r) row h = (r, refl, some_inj h)

client-IsGorm : IsGorm client Ready rows (λ t. t)
unfolding lookup
client-IsGorm = record {
  early = le_refl;
  finds = λ d table i u. refl;
  creates = λ d table row u named fresh. record {
    fine = refl;
    ready = insert-Unique row.id _ d u;
    holds = λ i. lookup-insert row.id i _ d;
  };
  saves = λ d table row u named. rw (ne→test row.id "" named) (record {
    fine = refl;
    ready = insert-Unique row.id _ d u;
    holds = λ i. lookup-insert row.id i _ d;
  });
  deletes = λ d table id u. record {
    fine = refl;
    ready = removed-Unique id d u;
    holds = λ i. lookup-removed id i d;
  };
  empties = λ d table u. record { fine = refl; ready = tt; holds = λ i. refl };
  orders = λ d table u. (
    row_if (first_in d),
    refl,
    λ row i e first found.
        let (r, is, same) = row_if-some (first_in d) row first in
        subst (λ (x : Row). x.next_run_time ≤ e.time) same
          (least_le times-IsOrder d r i e is found),
  );
}

client-IsScanned : IsScanned client Ready rows
client-IsScanned = record { scans = λ d table u. (d, u, refl, λ i. refl) }

gorm_store-IsListing_example :
    IsListing
      (IsStored (docs rows) (Good Ready) codec)
      (view (docs rows) (Good Ready) codec)
      (gorm_store client codec)
gorm_store-IsListing_example = gorm_store-IsListing client-IsScanned codec

gorm_store-IsLawful_example :
    IsLawful
      (IsStored (docs rows) (Named Ready rows) codec)
      (view (docs rows) (Named Ready rows) codec)
      (kept codec)
      (gorm_store client codec)
gorm_store-IsLawful_example = gorm_store-IsLawful client-IsGorm codec codec-IsGob
