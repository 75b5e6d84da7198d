-- ===== src/Lib.antt =====
-- ota_ws_update: firmware updates of an ESP32 over a web socket. A page in the browser announces the
-- size of an image in a JSON text frame and sends the image in binary frames, each asked for by the
-- device; a flash writer puts the chunks into the partition for the next update.
--
-- The program's parts, and the files that model them:
-- - source/ota_ws_update_http.c: `ota_ws_handler`, called for each frame, with its static variables,
--   `ota_error`, `send_json_string` and `json_to_str_parm`. Http/Session has the state, Http/Json the
--   parser of commands, Http/Message the texts sent, Http/Keys the names of
--   private_include/ota_ws_update_private.h, and Http/Handler the handler, cut at its branches into
--   functions that call each other in the order of the code. A `goto _recv_ret` is the return of the
--   value that is returned there. `serve` runs the handler on one frame after another. Http/Protocol is
--   a contract of the handler, apart from the code: an automaton on what a frame says, with the state of
--   the transfer in place of the static variables; Http/Protocol/View maps those to it.
--   Http/Calls gives a flash writer a record of its calls.
-- - The six functions of a flash writer, declared in private_include/ota_ws_update_private.h: the
--   record of Backend, with the contract `Keeps` that the handler needs. The build links one of
--   source/ota_ws_update_esp.c (Plain) and source/ota_ws_update_esp_preencrypted.c (PreEncrypted, with
--   its functions in PreEncrypted/Writer). Stack links the handler with each, Stack/Rollback is
--   about confirming an image, and Stack/Encrypted, by Http/Ending and Http/BeforeEnd, about the second
--   flash writer up to the end of its first update. Stack/Boot is about the partition that the device
--   boots from: it knows a flash writer by the record `BootWriter`, which Stack/Boot/PlainImage and
--   Stack/Boot/EncryptedImage fill for the two.
-- - source/ota_ws_update.html: Client, with the page's variables, its buttons and what it does with each
--   text of the device; the browser's JSON is the parameter `Json`. Client/World joins the page and the
--   handler by the two directions of the web socket, as a step relation. The other modules of Client
--   follow an update through it. Client/Acts adds the user, and calls that fail. Stack/Page adds a
--   flash writer, Stack/Buttons the other buttons, and Stack/Race a cancelled update started again.
--   Client/Settle follows an update with a flash writer that may refuse any of its calls; the record
--   `Course` of Backend/Course says what each answer tells of the flash writer's state, and Stack/Outcome
--   has it for the first flash writer.
-- - The page, `ota_get_handler`, and the registration of both handlers in source/ota_ws_update_http.c:
--   Server, with the web server as a parameter, and Server/Routes.
-- - example_ota_ws/main/example_echo_ws_server.c: Example, where network events start and stop the
--   server, also in front of its first start, with Example/Managed and Example/Unmanaged; Example/Echo is
--   its web socket's handler. Example/Main is app_main of
--   example_ota_ws/main/example_ota_ws_update.c, with the network's components as a parameter.
-- - Text and Word model what the code uses of C: `strncmp`, `atoi`, `snprintf` and `%d`, and numbers of
--   32 bits; Memory the reads through a pointer; Esp the result codes, and the monad in which a call
--   returns, restarts the chip, or has one of the kinds of undefined behaviour listed there.
--
-- Parameters, for code that is not part of the program: ESP-IDF's update functions (Device, with what
-- they document of a successful update and of the partition to boot from), the tokenizer
-- private_include/jsmn.h (Jsmn), and the library esp_encrypted_img (EncryptedImg, with what its source
-- does to the output of a call in `DecryptLaws` of PreEncrypted/Output). PreEncrypted/Library adds what that library does to the heap: a
-- handle is cleaned up by the end and the abort of a decryption, and the output buffer is reallocated.
-- The answers of the web server and of `calloc` to one call of the handler are the fields of `Request`.
-- The build's configuration is in `chunk_config`, `rollback_enable`, the two URIs and the embedded key.
--
-- Bounds. An `int` is its pattern below 2 ^ 32, and the sum of `ota_start_chunk` and a frame's length
-- is taken modulo 2 ^ 32, as `size_t` is on the chip; a frame is shorter than that. Printing a number
-- has fuel for ten digits, which a number below 2 ^ 32 does not exceed. Cutting a
-- file into parts has the file's length as fuel, enough for parts that are not empty. All other loops
-- are over the list of frames or over a text. A JSON number in a text to the page is a natural number,
-- as the device sends them for sizes below 2 ^ 31.
--
-- Not modelled: logging, the elements that the page shows, the older page source/ota_ws_update_.html,
-- which the build does not embed, and a page that is loaded again. The memory behind the zero of a C
-- string is modelled only where it is read.
pub mod Backend
pub mod Base
pub mod Client
pub mod Device
pub mod EncryptedImg
pub mod Esp
pub mod Example
pub mod Http
pub mod Jsmn
pub mod Memory
pub mod Plain
pub mod PreEncrypted
pub mod Server
pub mod Stack
pub mod Tests
pub mod Text
pub mod Word
