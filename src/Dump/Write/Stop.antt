-- ===== src/Dump/Write/Stop.antt =====
-- A writer callback that fails, in lj_bcwrite.c.
use qyz_client_lua.Base.{ℕ, ◌≡◌, ◌≢◌, refl, Bool, Bool-cases, inl, inr, [], ◌∷◌, arith}
use qyz_client_lua.Dump.Result.{Bytes}
use qyz_client_lua.Dump.Proto.{Doubles, Proto, Consts, proto, end, child, const, proto_child}
use qyz_client_lua.Dump.Write.Emit.{
  BcWriteCtx, call, call_if_ok, info_of, header_bytes, bcwrite_proto, bcwrite_children, lj_bcwrite,
}

module _ {S : Type 0} (wfunc : S → Bytes → S × ℕ) where
  stopped_call :
      (ctx : BcWriteCtx S) (piece : Bytes) → ctx.status ≢ 0 → call_if_ok wfunc ctx piece ≡ ctx
  unfolding call_if_ok
  stopped_call ctx piece h = ground arith

  module _ (fp : Doubles) (be strip : Bool) (startins : ℕ → ℕ) where
    mutual
      unfolding bcwrite_proto bcwrite_children

      stopped_proto :
          (p : Proto) (ctx : BcWriteCtx S)
          → ctx.status ≢ 0
          → bcwrite_proto wfunc fp be strip startins p ctx ≡ ctx
      stopped_proto (proto pt ks) ctx h = elim (Bool-cases (proto_child pt.flags)) [
        | inl t ↦ rw (t, stopped_children ks ctx h) (stopped_call ctx _ h)
        | inr f ↦ rw f (stopped_call ctx _ h)
      ]

      stopped_children :
          (ks : Consts) (ctx : BcWriteCtx S)
          → ctx.status ≢ 0
          → bcwrite_children wfunc fp be strip startins ks ctx ≡ ctx
      stopped_children end ctx h = refl
      stopped_children (child p ks) ctx h = rw (stopped_children ks ctx h) (stopped_proto p ctx h)
      stopped_children (const k ks) ctx h = stopped_children ks ctx h

    -- When the callback fails at the header, the dump ends there: no prototype and no footer is
    -- handed to it, and its status is the result.
    pub lj_bcwrite-stop :
        (p : Proto) (name : Bytes) (s : S)
        → (wfunc s (header_bytes be strip (info_of p) name)).1 ≢ 0
        → lj_bcwrite wfunc fp be strip startins p name s ≡ record {
          sink = (wfunc s (header_bytes be strip (info_of p) name)).0;
          status = (wfunc s (header_bytes be strip (info_of p) name)).1;
        }
    unfolding lj_bcwrite call
    lj_bcwrite-stop p name s h =
        rw
          (stopped_proto p
            (record {
              sink = (wfunc s (header_bytes be strip (info_of p) name)).0;
              status = (wfunc s (header_bytes be strip (info_of p) name)).1;
            })
            h)
          (stopped_call _ (0 ∷ []) h)
