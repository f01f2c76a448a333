-- ===== src/RawProxy/Errors.antt =====
-- `ProxyError` of lib.rs, less the text of each error.
pub data ProxyError : Type 0 where
  ip_error vsock_error nfq_error : ProxyError
