-- ===== src/Tcp/Hello.antt =====
-- The programs in Cornus/include/messaging/test/: the server of tcp_test_server.cpp, and what the client of
-- tcp_test_client.cpp sends and prints.
use cornus.Base.{ℕ, Bool, if◌then◌else◌, Option, none, some, Bytes, Bytes-discrete, ◌++◌, codes}
use cornus.Base.Dict.{empty, put}
use cornus.Tcp.Request.{Visit, TcpRequest, TcpResponse, params_request, print_request}
use cornus.Tcp.Server.{TcpServer, new_server}
use cornus.Tcp.Client.{TcpClient, Socket, Reply, gives, send_request}
use cornus.Tcp.Async.{send_request_async}
use cornus.Tcp.Connection.{Callback, Callbacks, register_callback}

unfoldable pub handle_hello : Callback
handle_hello req = record { response = codes "Hello, " ++ req.request }

unfoldable pub handle_whats_my_name : Callback
handle_whats_my_name req = record { response = codes "My name is server." }

unfoldable pub hello_callbacks : Callbacks
unfolding handle_hello handle_whats_my_name
hello_callbacks =
    register_callback (register_callback empty (codes "hello") handle_hello) (codes "name")
      handle_whats_my_name

unfoldable pub hello_server : TcpServer
unfolding hello_callbacks
hello_server = record (new_server 9500 10) { callbacks = hello_callbacks }

-- `printRes`
unfoldable pub print_result : Option TcpResponse → Bytes
print_result none = codes "no res!"
print_result (some res) = codes "response: " ++ res.response

-- The request that the thread of `main` sends.
unfoldable pub hello_request : Visit → TcpRequest
unfolding params_request
hello_request visit =
    let a = put Bytes-discrete empty (codes "a") (codes "b") in
    params_request visit (codes "hello") (put Bytes-discrete a (codes "c") (codes "d"))

-- What `sendRequest` of the program prints before it sends.
unfoldable pub print_attempt : Visit → TcpRequest → Bytes
unfolding print_request
print_attempt visit req =
    codes "attempting send of "
    ++ (print_request visit req ++ (codes " on endpoint " ++ req.endpoint))

-- What `sendRequest` of the program makes of the reply, in both of its branches.
print_reply : Reply → Option Bytes
print_reply (gives res) = some (print_result res)
print_reply _ = none

unfoldable pub send_hello : ℕ → TcpClient → Socket → TcpRequest → Bool → Option Bytes
unfolding print_reply send_request send_request_async
send_hello fuel cli k req async =
    if async
    then print_reply (send_request_async fuel cli k req).result.0
    else print_reply (send_request fuel cli k req).0
