-- ===== src/Errno.antt =====
-- `aerror_t`, src/inc/any/errno.h. `ok` is AERR_NONE.
pub data AError : Type 0 where
  ok full malformed unresolved runtime timeout : AError
