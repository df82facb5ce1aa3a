-- ===== src/Dump/Write/Emit.antt =====
-- The pieces that lj_bcwrite.c hands to the writer callback: `bcwrite_proto`, `bcwrite_header`,
-- `bcwrite_footer` and `lj_bcwrite`. The callback keeps a state `S` and answers with a status; a
-- status other than 0 stops the output.
use qyz_client_lua.Base.{ℕ, ◌+◌, Bool, [], ◌∷◌, ◌++◌, ◌==◌, if◌then◌else◌, length}
use qyz_client_lua.Dump.Result.{Bytes}
use qyz_client_lua.Dump.Uleb.{bcwrite_uleb128}
use qyz_client_lua.Dump.Proto.{
  Doubles, Info, Proto, Consts, proto, end, child, const, bcdump_head1, bcdump_head2, bcdump_head3,
  bcdump_version, proto_child, proto_ffi,
}
use qyz_client_lua.Dump.Write.{bcwrite_sized, bcwrite_body}

pub record BcWriteCtx (S : Type 0) : Type 0 where
  pub sink : S
  pub status : ℕ

unfoldable pub info_of : Proto → Info
info_of (proto pt ks) = pt

unfoldable pub header_flags : Bool → Bool → Info → ℕ
header_flags be strip pt =
    (if strip then 2 else 0) + (if be then 1 else 0) + (if proto_ffi pt.flags then 4 else 0)

unfoldable pub header_bytes : Bool → Bool → Info → Bytes → Bytes
unfolding header_flags
header_bytes be strip pt name =
    bcdump_head1
    ∷ bcdump_head2
    ∷ bcdump_head3
    ∷ bcdump_version
    ∷ header_flags be strip pt
    ∷ (if strip then [] else bcwrite_uleb128 (length name) ++ name)

module _ {S : Type 0} (wfunc : S → Bytes → S × ℕ) where
  unfoldable pub call : BcWriteCtx S → Bytes → BcWriteCtx S
  call ctx piece = let (s, status) = wfunc ctx.sink piece in record { sink = s; status = status }

  unfoldable pub call_if_ok : BcWriteCtx S → Bytes → BcWriteCtx S
  unfolding call
  call_if_ok ctx piece = if ctx.status == 0 then call ctx piece else ctx

  module _ (fp : Doubles) (be strip : Bool) (startins : ℕ → ℕ) where
    unfoldable mutual
      -- Children come first, from the last to the first.
      pub bcwrite_proto : Proto → BcWriteCtx S → BcWriteCtx S
      bcwrite_proto (proto pt ks) ctx =
          call_if_ok (if proto_child pt.flags then bcwrite_children ks ctx else ctx)
            (bcwrite_sized (bcwrite_body fp be strip startins pt ks))

      pub bcwrite_children : Consts → BcWriteCtx S → BcWriteCtx S
      bcwrite_children end ctx = ctx
      bcwrite_children (child p ks) ctx = bcwrite_proto p (bcwrite_children ks ctx)
      bcwrite_children (const k ks) ctx = bcwrite_children ks ctx

    -- `name` is the chunk name of the root prototype.
    unfoldable pub lj_bcwrite : Proto → Bytes → S → BcWriteCtx S
    lj_bcwrite p name s =
        let header = header_bytes be strip (info_of p) name in
        let ctx = call (record { sink = s; status = 0 }) header in
        call_if_ok (bcwrite_proto p ctx) (0 ∷ [])
