-- ===== src/Examples/Sql.antt =====
-- Rowids and unsigned values (src/ida_bridge/sql/rowid.py, src/ida_bridge/sql/u64.py) at concrete inputs.
use ida_bridge.Common.{◌≡◌, refl}
use ida_bridge.Common.Int.{pos}
use ida_bridge.Sql.U64.{encode, IsS64}
use ida_bridge.Sql.Rowid.{ok, pack_rowid, unpack_rowid}
use ida_bridge.Sql.Rowid.Roundtrip.{pack-unpack}

-- An operand index in two bits beside an address.
pack-unpack_example : IsS64 (pos 16387) × (unpack_rowid (pos 16387) 2 ≡ ok (pos 4096, pos 3))
pack-unpack_example =
    pack-unpack (pos 4096) (pos 3) 2 (pos 16387) (unfold pack_rowid encode in refl)
