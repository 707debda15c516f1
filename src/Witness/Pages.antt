-- ===== src/Witness/Pages.antt =====
-- A page with a live and a deleted record, for the theorems about tables.
use mini_database.Prelude.{refl, true, [], ◌∷◌, arith}
use mini_database.Packages.Pool.{PoolLib}
use mini_database.Page.{Page, Cell}
use mini_database.Page.Invariant.{IsWellFormed}
use mini_database.Witness.Toy.{toy_pool}
use mini_database.Witness.Records.{J, ada}

abbrev pub P : PoolLib
P = toy_pool

abbrev kept : Cell J P
kept = record { slot = tt; value = ada }

abbrev dropped : Cell J P
dropped = record { slot = tt; value = record ada { id = 3; deleted = true } }

abbrev pub sample : Page J P
sample = record {
  id = 0;
  dirty = true;
  records = dropped ∷ kept ∷ [];
  pool = record { capacity = 64; used = 2 };
}

pub sample-IsWellFormed : IsWellFormed J P sample
sample-IsWellFormed = record { within = omega arith; room = refl; held = refl }
