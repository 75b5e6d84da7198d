-- ===== src/Http/Keys.antt =====
-- The names in the JSON messages, of private_include/ota_ws_update_private.h.
use ota_ws_update.Base.{Bytes, codes}

abbrev pub ota_restart_esp : Bytes
ota_restart_esp = codes "otaRestartEsp"

abbrev pub ota_size_start : Bytes
ota_size_start = codes "otaSize"

abbrev pub ota_set_chunk_size : Bytes
ota_set_chunk_size = codes "otaSetChunkSize"

abbrev pub ota_get_chunk : Bytes
ota_get_chunk = codes "otaGetChunk"

abbrev pub ota_end : Bytes
ota_end = codes "otaEnd"

abbrev pub ota_error : Bytes
ota_error = codes "otaError"

abbrev pub ota_cancel : Bytes
ota_cancel = codes "otaCancel"

abbrev pub ota_check_rollback : Bytes
ota_check_rollback = codes "otaCheckRollback"

abbrev pub ota_process_rollback : Bytes
ota_process_rollback = codes "otaProcessRollback"
